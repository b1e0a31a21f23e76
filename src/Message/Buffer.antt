-- ===== src/Message/Buffer.antt =====
-- message.c: the shape of buffers, resizing, composing a message and turning it into a response.
use frelay.Common.{ℕ, zero, suc, ◌+◌, ◌-◌, ◌%◌, ◌^◌, ◌≤◌, ◌<◌, ◌≡◌, refl, sym, ap, ◌∙◌, arith}
use frelay.Common.{List, length, take, slice}
use frelay.Common.{length-take, length-append, slice-take, slice-append_left, Option, none, some}
use frelay.Common.{returns, dies, ltb, if◌then◌else◌}
use frelay.Bytes.{get64}
use frelay.Bytes.Order.{get64-lt}
use frelay.Message.{
  MBuf, Env, host, fresh, realloc, mbuf_new, mbuf_resize, mbuf_compose, mbuf_to_response,
  mclass_to_res, hdr_set_type, hdr_set_paylen, hdr_set_rfu, hdr_set_ts, hdr_set_srcid,
  hdr_set_dstid, hdr_set_trfid, hdr_get_type, hdr_get_srcid, hdr_get_dstid,
}
use frelay.Message.Header.{
  Header, header, Edited, Edited-start, edit_type, edit_paylen, edit_rfu, edit_ts, edit_srcid,
  edit_dstid, edit_trfid,
}

-- The buffer holds `bsize` bytes, the header among them, and no more than a message may have.
pub record IsWf (p : MBuf) : Type 0 where
  pub sized : length p.b ≡ p.bsize
  pub least : 40 ≤ p.bsize
  pub most : p.bsize ≤ 65440

pub length-fresh : (e : Env) (o n : ℕ) → length (fresh e o n) ≡ n
unfolding fresh
length-fresh e o zero = refl
length-fresh e o (suc n) = ap suc (length-fresh e (o + 1) n)

length-realloc : (e : Env) (b : List ℕ) (n : ℕ) → length (realloc e b n) ≡ n
unfolding realloc
length-realloc e b n = omega (
  arith,
  length-append (take n b) (fresh e (length b) (n - length b)),
  length-take n b,
  length-fresh e (length b) (n - length b),
)

slice-realloc :
    (e : Env) (b : List ℕ) (n o k : ℕ)
    → o + k ≤ n
    → o + k ≤ length b
    → slice o k (realloc e b n) ≡ slice o k b
unfolding realloc
slice-realloc e b n o k h g =
    slice-append_left o k (take n b) _ (omega (arith, length-take n b)) ∙ slice-take n o k b h

-- What a resized buffer has in common with the old one.
pub record Resized (p : MBuf) (n : ℕ) (q : MBuf) : Type 0 where
  pub wf : IsWf q
  pub new_size : q.bsize ≡ n + 40
  pub offset_le : q.boff ≤ q.bsize
  pub offset_kept : p.boff ≤ n + 40 → q.boff ≡ p.boff
  pub header_kept : header q ≡ header p
  pub bytes_kept : (k : ℕ) → k ≤ n + 40 → k ≤ p.bsize → slice 0 k q.b ≡ slice 0 k p.b

pub mbuf_resize-Resized :
    (e : Env) (p : MBuf) (n : ℕ)
    → IsWf p
    → n ≤ 65400
    → (q : MBuf) × (mbuf_resize e p n ≡ returns q) × Resized p n q
unfolding mbuf_resize header
mbuf_resize-Resized e p n w h = (
  record {
    bsize = n + 40;
    boff = if ltb (n + 40) p.boff then n + 40 else p.boff;
    b = realloc e p.b (n + 40);
  },
  ground arith,
  record {
    wf = record { sized = length-realloc e p.b (n + 40); least = omega arith; most = omega arith };
    new_size = refl;
    offset_le = ground arith;
    offset_kept = λ g. ground arith;
    header_kept = grind (arith, slice-realloc);
    bytes_kept = λ k h g. slice-realloc e p.b (n + 40) 0 k (omega arith) (omega arith);
  },
)

-- The process ends exactly when the payload would be larger than a message can carry.
mbuf_resize-dies : (e : Env) (p : MBuf) (n : ℕ) → 65400 < n → mbuf_resize e p n ≡ dies
unfolding mbuf_resize
mbuf_resize-dies e p n h = ground arith

pub Edited-IsWf : {p q : MBuf} {h : Header} → IsWf p → Edited p q h → IsWf q
Edited-IsWf w d = record {
  sized = d.shape.length_kept ∙ w.sized ∙ sym d.shape.bsize_kept;
  least = omega (arith, w.least, d.shape.bsize_kept);
  most = omega (arith, w.most, d.shape.bsize_kept);
}

-- The header of the answer to a message with header `h`, written at time `now`.
abbrev pub response_header : ℕ → Header → Header
response_header now h = record {
  type = mclass_to_res h.type % 2 ^ 16;
  paylen = 0;
  rfu = 0;
  ts = now % 2 ^ 64;
  srcid = h.dstid;
  dstid = h.srcid;
  trfid = h.trfid;
}

-- A bare header: what a message is before its first attribute.
pub record IsBare (q : MBuf) (h : Header) : Type 0 where
  pub wf : IsWf q
  pub empty : q.bsize ≡ 40
  pub rewound : q.boff ≡ 0
  pub reads : header q ≡ h

pub mbuf_new-IsWf : (e : Env) → IsWf (mbuf_new e)
unfolding mbuf_new
mbuf_new-IsWf e = record { sized = length-fresh e 0 40; least = omega arith; most = omega arith }

abbrev rewind : MBuf → MBuf
rewind p = record p { boff = 0 }

rewind-IsWf : {p : MBuf} → IsWf p → IsWf (rewind p)
rewind-IsWf w = record { sized = w.sized; least = w.least; most = w.most }

-- The field writes of `mbuf_to_response`, and of `mbuf_compose`, on a rewound buffer.
respond : Env → MBuf → MBuf
respond e p0 =
    let p1 = hdr_set_type p0 (mclass_to_res (hdr_get_type p0)) in
    let p2 = hdr_set_paylen p1 0 in
    let p3 = hdr_set_rfu p2 0 in
    let p4 = hdr_set_ts p3 e.clock in
    let p5 = hdr_set_srcid p4 (hdr_get_dstid p4) in hdr_set_dstid p5 (hdr_get_srcid p4)

get64_small : (xs : List ℕ) → get64 host xs % 2 ^ 64 ≡ get64 host xs
get64_small xs = omega (arith, get64-lt xs)

respond-Edited :
    (e : Env) (p : MBuf)
    → 40 ≤ length p.b
    → Edited p (respond e p) (response_header e.clock (header p))
unfolding respond header
respond-Edited e p room =
    let d1 = edit_type (mclass_to_res (hdr_get_type p)) room (Edited-start p) in
    let d2 = edit_paylen 0 room d1 in
    let d3 = edit_rfu 0 room d2 in
    let d4 = edit_ts e.clock room d3 in
    let d5 = edit_srcid (hdr_get_dstid p4) room d4 in
    let d6 = edit_dstid (hdr_get_srcid p4) room d5 in
    record {
      shape = d6.shape;
      reads =
          d6.reads
          ∙ ground (arith, d4.reads, get64_small (slice 16 8 p.b), get64_small (slice 24 8 p.b));
    }
  where
    p4 : MBuf
    p4 =
        hdr_set_ts
          (hdr_set_rfu (hdr_set_paylen (hdr_set_type p (mclass_to_res (hdr_get_type p))) 0) 0)
          e.clock

IsBare-Edited :
    {p q : MBuf} {h : Header} → IsWf p → p.bsize ≡ 40 → p.boff ≡ 0 → Edited p q h → IsBare q h
IsBare-Edited w n z d = record {
  wf = Edited-IsWf w d;
  empty = d.shape.bsize_kept ∙ n;
  rewound = d.shape.boff_kept ∙ z;
  reads = d.reads;
}

header-rewind : (p : MBuf) → header (rewind p) ≡ header p
unfolding header
header-rewind p = refl

respond-IsBare :
    (e : Env) (r : MBuf)
    → IsWf r
    → r.bsize ≡ 40
    → IsBare (respond e (rewind r)) (response_header e.clock (header r))
respond-IsBare e r w n = rw (← header-rewind r) (
    IsBare-Edited (rewind-IsWf w) n refl
      (respond-Edited e (rewind r) (omega (arith, w.sized, w.least))))

-- `mbuf_to_response` always succeeds on a well-formed message, and leaves a bare header of the
-- response class with source and destination swapped and the transaction kept.
pub mbuf_to_response-IsBare :
    (e : Env) (p : MBuf)
    → IsWf p
    → (q : MBuf) × (mbuf_to_response e p ≡ returns q)
      × IsBare q (response_header e.clock (header p))
unfolding mbuf_to_response respond
mbuf_to_response-IsBare e p w =
    let (r, eq, z) = mbuf_resize-Resized e p 0 w (omega arith) in
    (respond e (rewind r), rw eq, rw (← z.header_kept) (respond-IsBare e r z.wf z.new_size))

-- The field writes of `mbuf_compose`.
fill : Env → MBuf → ℕ → ℕ → ℕ → ℕ → MBuf
fill e p0 type srcid dstid trfid =
    let p1 = hdr_set_type p0 type in
    let p2 = hdr_set_paylen p1 0 in
    let p3 = hdr_set_rfu p2 0 in
    let p4 = hdr_set_ts p3 e.clock in
    let p5 = hdr_set_srcid p4 srcid in let p6 = hdr_set_dstid p5 dstid in hdr_set_trfid p6 trfid

abbrev pub composed_header : ℕ → ℕ → ℕ → ℕ → ℕ → Header
composed_header now type srcid dstid trfid = record {
  type = type % 2 ^ 16;
  paylen = 0;
  rfu = 0;
  ts = now % 2 ^ 64;
  srcid = srcid % 2 ^ 64;
  dstid = dstid % 2 ^ 64;
  trfid = trfid % 2 ^ 64;
}

fill-IsBare :
    (e : Env) (r : MBuf) (type srcid dstid trfid : ℕ)
    → IsWf r
    → r.bsize ≡ 40
    → IsBare
        (fill e (rewind r) type srcid dstid trfid)
        (composed_header e.clock type srcid dstid trfid)
unfolding fill
fill-IsBare e r type srcid dstid trfid w n =
    let room : 40 ≤ length r.b = omega (arith, w.sized, w.least) in
    IsBare-Edited (rewind-IsWf w) n refl (
      edit_trfid trfid room (
        edit_dstid dstid room (
          edit_srcid srcid room (
            edit_ts e.clock room (
              edit_rfu 0 room
                (edit_paylen 0 room (edit_type type room (Edited-start (rewind r)))))))))

abbrev Fits : Option MBuf → Type 0
Fits none = Unit {0}
Fits (some p) = IsWf p

-- `mbuf_compose` gives the same header whatever the buffer held before, or the heap for a new one:
-- nothing of that memory reaches the wire.
pub mbuf_compose-IsBare :
    (e : Env) (pp : Option MBuf) (type srcid dstid trfid : ℕ)
    → Fits pp
    → (q : MBuf) × (mbuf_compose e pp type srcid dstid trfid ≡ returns q)
      × IsBare q (composed_header e.clock type srcid dstid trfid)
unfolding mbuf_compose fill
mbuf_compose-IsBare e none type srcid dstid trfid w = (
  fill e (rewind (mbuf_new e)) type srcid dstid trfid,
  refl,
  fill-IsBare e (mbuf_new e) type srcid dstid trfid (mbuf_new-IsWf e) (unfold mbuf_new in refl),
)
mbuf_compose-IsBare e (some p) type srcid dstid trfid w =
    let (r, eq, z) = mbuf_resize-Resized e p 0 w (omega arith) in
    (
      fill e (rewind r) type srcid dstid trfid,
      rw eq,
      fill-IsBare e r type srcid dstid trfid z.wf z.new_size,
    )
