-- ===== src/Message/Append.antt =====
-- message.c: what `mbuf_grow` and `mbuf_addattrib` leave in the buffer.
use frelay.Common.{ℕ, zero, suc, ◌+◌, ◌-◌, ◌%◌, ◌^◌, ◌≤◌, ◌≡◌, refl, ap, ◌∙◌, arith}
use frelay.Common.{List, [], ◌∷◌, ◌++◌, length, drop, write, replicate}
use frelay.Common.{
  length-write, length-append, length-replicate, take_all, write-append_left, write-append_right,
  write_exact, write-replicate, slice-append_left,
}
use frelay.Common.{returns}
use frelay.Bytes.{put16, put32}
use frelay.Bytes.Order.{length-put16, length-put32}
use frelay.Message.{
  MBuf, Env, host, fresh, realloc, roundup8, mbuf_resize, mbuf_grow, mbuf_addattrib, hdr_set_paylen,
  AvType, AttrArg, avtype_of, attr_value, attr_head, copy_in,
}
use frelay.Message.Header.{header, header-set_paylen, set_paylen-KeepsShape}
use frelay.Message.Buffer.{IsWf, length-fresh}

-- `mbuf_grow` appends `n` zero bytes: none of the heap's old contents are left.
abbrev grown : MBuf → ℕ → MBuf
grown p n = record p { bsize = p.bsize + n; b = p.b ++ replicate n 0 }

realloc_more :
    (e : Env) (b : List ℕ) (n : ℕ) → realloc e b (length b + n) ≡ b ++ fresh e (length b) n
unfolding realloc
realloc_more e b n =
    ap (λ c. c ++ fresh e (length b) (length b + n - length b))
      (take_all (length b + n) b (omega arith))
    ∙ ap (λ k. b ++ fresh e (length b) k) (omega arith)

clear :
    (e : Env) (b : List ℕ) (n : ℕ)
    → write (length b) (replicate n 0) (realloc e b (length b + n)) ≡ b ++ replicate n 0
clear e b n = rw realloc_more (
    ap (λ k. write k (replicate n 0) (b ++ fresh e (length b) n)) (plus_zero (length b))
    ∙ write-append_right 0 (replicate n 0) b (fresh e (length b) n)
    ∙ ap (λ c. b ++ c)
        (write_exact _ _
          (omega (arith, length-replicate {A = ℕ} n 0, length-fresh e (length b) n))))
  where
    plus_zero : (k : ℕ) → k ≡ k + 0
    plus_zero k = omega arith

mbuf_grow-grown :
    (e : Env) (p : MBuf) (n : ℕ)
    → IsWf p
    → p.boff ≤ p.bsize
    → p.bsize + n ≤ 65440
    → mbuf_grow e p n ≡ returns (grown p n)
unfolding mbuf_grow mbuf_resize
mbuf_grow-grown e p n w o h = ground (arith, clear e p.b n, w.sized)

pub length-attr_head : (attype len : ℕ) → length (attr_head attype len) ≡ 8
unfolding attr_head
length-attr_head attype len = omega (
  arith,
  length-append (put16 host attype) (put16 host len ++ put32 host 0),
  length-append (put16 host len) (put32 host 0),
  length-put16 host attype,
  length-put16 host len,
  length-put32 host 0,
)

-- The two copies of `mbuf_addattrib` into the cleared tail.
fill_attr :
    (c head v : List ℕ) (r : ℕ)
    → length head ≡ 8
    → length v ≤ r
    → write (length c + 8) v (write (length c) head (c ++ replicate (r + 8) 0))
      ≡ c ++ (head ++ (v ++ replicate (r - length v) 0))
fill_attr c head v r hn hv =
    ap (write (length c + 8) v) (first ∙ ap (λ t. c ++ t) second)
    ∙ write-append_right 8 v c (head ++ replicate r 0)
    ∙ ap (λ t. c ++ t)
        (ap (λ k. write k v (head ++ replicate r 0)) eight
          ∙ write-append_right 0 v head (replicate r 0)
          ∙ ap (λ t. head ++ t) (write-replicate v r 0 hv))
  where
    first :
        write (length c) head (c ++ replicate (r + 8) 0) ≡ c ++ write 0 head (replicate (r + 8) 0)
    first =
        ap (λ k. write k head (c ++ replicate (r + 8) 0)) (omega arith)
        ∙ write-append_right 0 head c (replicate (r + 8) 0)

    tail : r + 8 - length head ≡ r
    tail = omega arith

    second : write 0 head (replicate (r + 8) 0) ≡ head ++ replicate r 0
    second = write-replicate head (r + 8) 0 (omega arith) ∙ ap (λ k. head ++ replicate k 0) tail

    eight : 8 ≡ length head + 0
    eight = omega arith

-- The argument of a call is encoded as the bytes `v`, and the length that is used is theirs.
pub record IsAttr (attype len : ℕ) (arg : AttrArg) (v : List ℕ) : Type 0 where
  pub kind : AvType
  pub known : avtype_of attype len ≡ returns (kind, length v)
  pub encodes : attr_value kind (length v) arg ≡ returns v

abbrev pub attr_bytes : ℕ → List ℕ → List ℕ
attr_bytes attype v =
    attr_head attype (length v) ++ (v ++ replicate (roundup8 (length v) - length v) 0)

-- The size of an attribute on the wire.
abbrev pub attr_size : List ℕ → ℕ
attr_size v = roundup8 (length v) + 8

abbrev pub appended : MBuf → ℕ → List ℕ → MBuf
appended p attype v =
    let size = p.bsize + attr_size v in
    let q = hdr_set_paylen p (size - 40) in
    record q { bsize = size; b = q.b ++ attr_bytes attype v }

-- An attribute whose argument encodes as `v`, and that fits a message of 65440 bytes, is appended:
-- its head, its value and zero bytes up to a multiple of 8 follow the old bytes, the length field
-- is written anew, and nothing else changes.
pub mbuf_addattrib-appended :
    (e : Env) (p : MBuf) (attype len : ℕ) (arg : AttrArg) (v : List ℕ)
    → IsWf p
    → p.boff ≤ p.bsize
    → IsAttr attype len arg v
    → p.bsize + attr_size v ≤ 65440
    → mbuf_addattrib e p attype len arg ≡ returns (appended p attype v)
unfolding mbuf_addattrib hdr_set_paylen copy_in
mbuf_addattrib-appended e p attype len arg v w o a h =
    let r : ℕ = roundup8 (length v) in
    let ps = put16 host (p.bsize + (r + 8) - 40) in
    let c = write 2 ps p.b in
    let cleared : write 2 ps (p.b ++ replicate (r + 8) 0) ≡ c ++ replicate (r + 8) 0 =
      write-append_left 2 ps p.b (replicate (r + 8) 0)
        (omega (arith, length-put16 host (p.bsize + (r + 8) - 40), w.sized, w.least)) in
    rw (a.known, mbuf_grow-grown e p (r + 8) w o h)
      (ground (
        arith,
        cleared,
        a.encodes,
        w.sized,
        length-attr_head attype (length v),
        length-write 2 ps p.b,
        fill_attr c (attr_head attype (length v)) v r,
      ))

-- An appended attribute extends the payload; of the header it changes the payload length alone.
pub record Extends (p q : MBuf) (attype : ℕ) (v : List ℕ) : Type 0 where
  pub wf : IsWf q
  pub new_size : q.bsize ≡ p.bsize + attr_size v
  pub boff_kept : q.boff ≡ p.boff
  pub header_kept : header q ≡ record (header p) { paylen = (q.bsize - 40) % 2 ^ 16 }
  pub payload : drop 40 q.b ≡ drop 40 p.b ++ attr_bytes attype v

length-attr_bytes : (attype : ℕ) (v : List ℕ) → length (attr_bytes attype v) ≡ attr_size v
length-attr_bytes attype v =
    let r : ℕ = roundup8 (length v) - length v in
    omega (
      arith,
      length-append (attr_head attype (length v)) (v ++ replicate r 0),
      length-append v (replicate r 0),
      length-replicate {A = ℕ} r 0,
      length-attr_head attype (length v),
    )

drop-append_left {ℓ} :
    {A : Type ℓ} (n : ℕ) (xs ys : List A) → n ≤ length xs → drop n (xs ++ ys) ≡ drop n xs ++ ys
drop-append_left zero xs ys h = refl
drop-append_left (suc n) [] ys h = absurd (omega arith)
drop-append_left (suc n) (x ∷ xs) ys h = drop-append_left n xs ys (omega arith)

header-append :
    (p : MBuf) (n : ℕ) (ys : List ℕ)
    → 40 ≤ length p.b
    → header (record p { bsize = n; b = p.b ++ ys }) ≡ header p
unfolding header
header-append p n ys h = grind (arith, slice-append_left)

pub appended-Extends :
    (p : MBuf) (attype : ℕ) (v : List ℕ)
    → IsWf p
    → p.bsize + attr_size v ≤ 65440
    → Extends p (appended p attype v) attype v
appended-Extends p attype v w h =
    let size : ℕ = p.bsize + attr_size v in
    let q = hdr_set_paylen p (size - 40) in
    let k = set_paylen-KeepsShape p (size - 40) in
    let room : 40 ≤ length q.b = omega (arith, k.length_kept, w.sized, w.least) in
    record {
      wf = record {
        sized = omega (
          arith,
          length-append q.b (attr_bytes attype v),
          length-attr_bytes attype v,
          k.length_kept,
          w.sized,
        );
        least = omega (arith, w.least);
        most = h;
      };
      new_size = refl;
      boff_kept = k.boff_kept;
      header_kept =
          header-append q size (attr_bytes attype v) room
          ∙ header-set_paylen p (size - 40) (omega (arith, w.sized, w.least));
      payload =
          drop-append_left 40 q.b (attr_bytes attype v) room
          ∙ ap (λ c. c ++ attr_bytes attype v) k.payload_kept;
    }
