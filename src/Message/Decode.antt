-- ===== src/Message/Decode.antt =====
-- message.c: `mbuf_getnextattrib` on any payload, and on one that `mbuf_addattrib` wrote.
use frelay.Common.{ℕ, zero, suc, ◌+◌, ◌-◌, ◌^◌, ◌≤◌, ◌<◌, ◌≡◌, refl, sym, ap, ◌∙◌, arith}
use frelay.Common.{List, [], ◌∷◌, ◌++◌, length, take, drop, slice, replicate, All}
use frelay.Common.{
  length-append, length-replicate, length-drop, drop-append, drop-drop, take-append, none, some,
}
use mathlib.Core.List.{append_assoc}
use frelay.Bytes.{put16, get16}
use frelay.Bytes.Order.{put16_lem, put32_lem, get16-put16}
use frelay.Message.{MBuf, Attr, host, roundup8, mbuf_getnextattrib, attr_head}
use frelay.Message.Append.{length-attr_head, attr_bytes}

-- On every message the head and the value of an attribute that is found lie inside the buffer,
-- and the read offset moves on past them; when none is found the message is unchanged.
pub getnextattrib_in_bounds :
    (p : MBuf) (x : Attr)
    → (mbuf_getnextattrib p).0 ≡ some x
    → (x.av ≡ p.boff + 8)
      × (x.av + x.al ≤ p.bsize)
      × (x.av + x.al ≤ (mbuf_getnextattrib p).1.boff)
      × ((mbuf_getnextattrib p).1.bsize ≡ p.bsize)
      × ((mbuf_getnextattrib p).1.b ≡ p.b)
unfolding mbuf_getnextattrib
getnextattrib_in_bounds p x h = ground arith

-- The loop `while ( 0 == mbuf_getnextattrib( p, &at, &al, &av ) )`, collecting types and values.
pub read_attrs : ℕ → MBuf → List (ℕ × List ℕ)
read_attrs zero p = []
read_attrs (suc f) p = elim ((mbuf_getnextattrib p).0) [
  | none ↦ []
  | some x ↦ (x.at, slice x.av x.al p.b) ∷ read_attrs f (mbuf_getnextattrib p).1
]

abbrev pub payload_bytes : List (ℕ × List ℕ) → List ℕ
payload_bytes [] = []
payload_bytes ((t, v) ∷ more) = attr_bytes t v ++ payload_bytes more

-- Type and length fit their 16-bit words.
abbrev pub IsWire : ℕ × List ℕ → Type 0
IsWire (t, v) = (t < 2 ^ 16) × (length v < 2 ^ 16)

head_type : (t n : ℕ) (tl : List ℕ) → take 2 (attr_head t n ++ tl) ≡ put16 host t
unfolding attr_head
head_type t n tl = rw (put16_lem host t)

head_len : (t n : ℕ) (tl : List ℕ) → take 2 (drop 2 (attr_head t n ++ tl)) ≡ put16 host n
unfolding attr_head
head_len t n tl = rw (put16_lem host t, put16_lem host n)

head_skip : (t n : ℕ) (tl : List ℕ) → drop 8 (attr_head t n ++ tl) ≡ tl
unfolding attr_head
head_skip t n tl = rw (put16_lem host t, put16_lem host n, put32_lem host 0)

-- An attribute at the read offset, and what follows it.
module _ (p : MBuf) (t : ℕ) (v rest : List ℕ) (sized : length p.b ≡ p.bsize) (ht : t < 2 ^ 16)
    (hv : length v < 2 ^ 16) (here : drop p.boff p.b ≡ attr_head t (length v) ++ (v ++ rest)) where
  type_read : get16 host (slice p.boff 2 p.b) ≡ t
  unfolding slice
  type_read = omega (
    arith,
    ap (get16 host) (ap (take 2) here ∙ head_type t (length v) (v ++ rest)),
    get16-put16 host t,
  )

  len_read : get16 host (slice (p.boff + 2) 2 p.b) ≡ length v
  unfolding slice
  len_read = omega (
    arith,
    ap (get16 host) (
        ap (take 2) (sym (drop-drop 2 p.boff p.b) ∙ ap (drop 2) here)
        ∙ head_len t (length v) (v ++ rest)),
    get16-put16 host (length v),
  )

  after_head : drop (p.boff + 8) p.b ≡ v ++ rest
  after_head = sym (drop-drop 8 p.boff p.b) ∙ ap (drop 8) here ∙ head_skip t (length v) (v ++ rest)

  pub value_read : slice (p.boff + 8) (length v) p.b ≡ v
  unfolding slice
  value_read = ap (take (length v)) after_head ∙ take-append (length v) v rest refl

  pub fits : p.boff + 8 + length v ≤ p.bsize
  fits = omega (
    arith,
    ap length here,
    length-drop p.boff p.b,
    length-append (attr_head t (length v)) (v ++ rest),
    length-append v rest,
    length-attr_head t (length v),
    sized,
  )

  pub getnextattrib-found : mbuf_getnextattrib p ≡ (
    some (record { at = t; al = length v; av = p.boff + 8 }),
    record p { boff = p.boff + 8 + roundup8 (length v) },
  )
  unfolding mbuf_getnextattrib
  getnextattrib-found = ground (arith, type_read, len_read, fits)

  pub after_value :
      (r : ℕ) (zs more : List ℕ)
      → rest ≡ zs ++ more
      → length v + length zs ≡ r
      → drop (p.boff + 8 + r) p.b ≡ more
  after_value r zs more e n =
      sym (drop-drop r (p.boff + 8) p.b)
      ∙ ap (drop r) (after_head ∙ ap (λ x. v ++ x) e ∙ sym (append_assoc v zs more))
      ∙ drop-append r (v ++ zs) more (length-append v zs ∙ n)

getnextattrib-end : (p : MBuf) → p.boff ≡ p.bsize → (mbuf_getnextattrib p).0 ≡ none
unfolding mbuf_getnextattrib
getnextattrib-end p e = ground arith

pub regroup : (h v zs more : List ℕ) → (h ++ (v ++ zs)) ++ more ≡ h ++ (v ++ (zs ++ more))
regroup h v zs more = simp append_assoc

pub padded :
    (v : List ℕ)
    → length v + length {A = ℕ} (replicate (roundup8 (length v) - length v) 0) ≡ roundup8 (length v)
padded v = omega (arith, length-replicate {A = ℕ} (roundup8 (length v) - length v) 0)

read_step :
    (f : ℕ) (p : MBuf) (x : Attr) (q : MBuf)
    → mbuf_getnextattrib p ≡ (some x, q)
    → read_attrs (suc f) p ≡ (x.at, slice x.av x.al p.b) ∷ read_attrs f q
unfolding read_attrs
read_step f p x q e = rw (e, read_attrs) (rw e)

read_end : (f : ℕ) (p : MBuf) → (mbuf_getnextattrib p).0 ≡ none → read_attrs (suc f) p ≡ []
unfolding read_attrs
read_end f p e = rw (e, read_attrs)

pub read_attrs-payload :
    (as' : List (ℕ × List ℕ)) (f : ℕ) (p : MBuf)
    → length p.b ≡ p.bsize
    → p.boff ≤ p.bsize
    → All IsWire as'
    → drop p.boff p.b ≡ payload_bytes as'
    → length as' < f
    → read_attrs f p ≡ as'
unfolding read_attrs
read_attrs-payload as' zero p sized o w here h = absurd (omega arith)
read_attrs-payload [] (suc f) p sized o w here h =
    read_end f p (getnextattrib-end p (omega (arith, ap length here, length-drop p.boff p.b)))
read_attrs-payload ((t, v) ∷ more) (suc f) p sized o (w, ws) here h =
    let r : ℕ = roundup8 (length v) in
    let zs : List ℕ = replicate (r - length v) 0 in
    let rest = zs ++ payload_bytes more in
    let here' = here ∙ regroup (attr_head t (length v)) v zs (payload_bytes more) in
    let q = record p { boff = p.boff + 8 + r } in
    let room : q.boff ≤ p.bsize = omega (
      arith,
      ap length here',
      length-drop p.boff p.b,
      length-append (attr_head t (length v)) (v ++ rest),
      length-append v rest,
      length-append zs (payload_bytes more),
      length-attr_head t (length v),
      padded v,
    ) in
    let ih =
      read_attrs-payload more f q sized room ws
        (after_value p t v rest sized w.0 w.1 here' r zs (payload_bytes more) refl (padded v))
        (omega arith) in
    read_step f p _ _ (getnextattrib-found p t v rest sized w.0 w.1 here')
    ∙ (λ i. (t, value_read p t v rest sized w.0 w.1 here' i) ∷ ih i)
