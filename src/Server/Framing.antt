-- ===== src/Server/Framing.antt =====
-- srvmain.c, `handle_io`: a message is put together from whatever pieces `read` delivers.
use frelay.Common.{ℕ, ◌+◌, ◌≤◌, ◌<◌, ◌≡◌, refl, sym, ap, ◌∙◌, arith}
use frelay.Common.{
  List, ◌++◌, length, take, slice, take-write_self, take_add, length-write, length-slice,
  slice-take, take_all,
}
use frelay.Common.{true, false, ltb, ◌==◌, if◌then◌else◌, Bool-cases, ◌⊎◌, inl, inr}
use frelay.Common.{Outcome, returns}
use frelay.Bytes.{get16}
use frelay.Message.{MBuf, Env, host, hdr_get_paylen}
use frelay.Message.Buffer.{Resized, mbuf_resize-Resized}
use frelay.Server.Io.{take_in, is_filled, expect_payload}

-- What the code does with the bytes of one `read`, up to the test for a complete message.
unfoldable pub absorb : Env → MBuf → List ℕ → Outcome MBuf
absorb e m bytes =
    let m1 = take_in m bytes in if is_filled m1 then expect_payload e m1 else returns m1

-- The bytes of one message: a header and as many bytes as its length field says.
pub record IsMessage (w : List ℕ) : Type 0 where
  pub least : 40 ≤ length w
  pub most : length w ≤ 65440
  pub paylen : get16 host (slice 2 2 w) + 40 ≡ length w

-- The buffer holds the first `k` bytes of the message `w` and waits for more.
pub record Holds (w : List ℕ) (k : ℕ) (m : MBuf) : Type 0 where
  pub at : m.boff ≡ k
  pub sized : length m.b ≡ m.bsize
  pub size : m.bsize ≡ (if ltb k 40 then 40 else length w)
  pub bytes : take k m.b ≡ take k w
  pub waits : k < m.bsize

-- The buffer is the whole message.
pub record Whole (w : List ℕ) (m : MBuf) : Type 0 where
  pub bytes : m.b ≡ w
  pub filled : m.boff ≡ m.bsize
  pub size : m.bsize ≡ length w

-- The buffer after `n` more bytes of the message.
taken_in :
    (w : List ℕ) (k n : ℕ) (m : MBuf)
    → Holds w k m
    → k + n ≤ m.bsize
    → k + n ≤ length w
    → (length (take_in m (slice k n w)).b ≡ m.bsize)
      × ((take_in m (slice k n w)).boff ≡ k + n)
      × (take (k + n) (take_in m (slice k n w)).b ≡ take (k + n) w)
unfolding take_in
taken_in w k n m h fits inside =
    let len = length-slice k n w (omega arith) in
    (
      length-write m.boff (slice k n w) m.b ∙ h.sized,
      omega (arith, h.at, len),
      rw h.at (
            take-write_self (k + n) k (slice k n w) m.b (omega (arith, len))
              (omega (arith, h.sized)))
          ∙ ap (λ ys. ys ++ slice k n w) h.bytes
          ∙ sym (take_add (k + n) k n w refl),
    )

Whole-taken :
    (w : List ℕ) (m : MBuf)
    → length m.b ≡ m.bsize
    → m.bsize ≡ length w
    → m.boff ≡ length w
    → take (length w) m.b ≡ take (length w) w
    → Whole w m
Whole-taken w m sized size at bytes = record {
  bytes =
      sym (take_all (length w) m.b (omega (arith, sized)))
      ∙ bytes
      ∙ take_all (length w) w (omega arith);
  filled = omega arith;
  size = size;
}

paylen_read :
    (w : List ℕ) (m : MBuf)
    → IsMessage w
    → take 40 m.b ≡ take 40 w
    → hdr_get_paylen m + 40 ≡ length w
unfolding hdr_get_paylen
paylen_read w m ok bytes =
    ap (λ s. get16 host s + 40)
      (sym (slice-take 40 2 2 m.b (omega arith))
        ∙ ap (slice 2 2) bytes
        ∙ slice-take 40 2 2 w (omega arith))
    ∙ ok.paylen

-- Room for the payload behind a complete header.
Resized-Holds :
    (w : List ℕ) (m q : MBuf) (n : ℕ)
    → n + 40 ≡ length w
    → 0 < n
    → m.bsize ≡ 40
    → m.boff ≡ 40
    → take 40 m.b ≡ take 40 w
    → Resized m n q
    → Holds w 40 q
unfolding slice
Resized-Holds w m q n len more size at bytes z = record {
  at = z.offset_kept (omega arith) ∙ at;
  sized = z.wf.sized;
  size = z.new_size ∙ len;
  bytes = z.bytes_kept 40 (omega arith) (omega arith) ∙ bytes;
  waits = omega (arith, z.new_size);
}

-- The header is complete.
header_read :
    (e : Env) (w : List ℕ) (m : MBuf)
    → IsMessage w
    → length m.b ≡ m.bsize
    → m.bsize ≡ 40
    → m.boff ≡ 40
    → take 40 m.b ≡ take 40 w
    → (q : MBuf) × (expect_payload e m ≡ returns q) × (Holds w 40 q ⊎ ((length w ≡ 40) × Whole w q))
unfolding expect_payload
header_read e w m ok sized size at bytes =
    let len : hdr_get_paylen m + 40 ≡ length w = paylen_read w m ok bytes in
    let yes40 : (m.boff == 40) ≡ true = ground arith in
    elim (Bool-cases (ltb 0 (hdr_get_paylen m))) [
      | inl more ↦
          (let (q, eq, z) =
              mbuf_resize-Resized e m (hdr_get_paylen m)
                (record { sized = sized; least = omega arith; most = omega arith })
                (omega (arith, ok.most)) in
            (
              q,
              rw (yes40, more) eq,
              inl (Resized-Holds w m q (hdr_get_paylen m) len (ground arith) size at bytes z),
            ))
      | inr none_left ↦
          (let short : length w ≡ 40 = ground arith in
            (
              m,
              rw (yes40, none_left) refl,
              inr (
                short,
                Whole-taken w m sized (size ∙ sym short) (at ∙ sym short) (rw short bytes),
              ),
            ))
    ]

past_header : (e : Env) (m : MBuf) → 40 < m.boff → expect_payload e m ≡ returns m
unfolding expect_payload
past_header e m h = let no : (m.boff == 40) ≡ false = ground arith in rw no refl

-- A full buffer that held less than its header before is a complete header; else it is the message.
filled_up :
    (e : Env) (w : List ℕ) (k j : ℕ) (m : MBuf)
    → IsMessage w
    → k < j
    → j ≡ m.bsize
    → m.bsize ≡ (if ltb k 40 then 40 else length w)
    → length m.b ≡ m.bsize
    → m.boff ≡ j
    → take j m.b ≡ take j w
    → (q : MBuf) × (expect_payload e m ≡ returns q) × (Holds w j q ⊎ Whole w q)
filled_up e w k j m ok pos full size sized at bytes = elim (Bool-cases (ltb k 40)) [
  | inl in_header ↦
      (let j40 : j ≡ 40 = ground arith in
        let (q, eq, which) =
          header_read e w m ok sized (ground arith) (omega arith) (rw j40 at bytes) in
        (q, eq, elim which [ inl h ↦ inl (rw j40 h) | inr (short, x) ↦ inr x ]))
  | inr in_payload ↦
      (let whole : j ≡ length w = ground arith in
        (
          m,
          past_header e m (ground arith),
          inr (Whole-taken w m sized (omega arith) (omega arith) (rw whole at bytes)),
        ))
]

absorbed :
    (e : Env) (w : List ℕ) (k j : ℕ) (m : MBuf)
    → IsMessage w
    → k < j
    → j ≤ m.bsize
    → m.bsize ≡ (if ltb k 40 then 40 else length w)
    → length m.b ≡ m.bsize
    → m.boff ≡ j
    → take j m.b ≡ take j w
    → (q : MBuf) × ((if is_filled m then expect_payload e m else returns m) ≡ returns q)
      × (Holds w j q ⊎ Whole w q)
absorbed e w k j m ok pos fits size sized at bytes = elim (Bool-cases (is_filled m)) [
  | inl full ↦
      (let (q, eq, which) = filled_up e w k j m ok pos (ground arith) size sized at bytes in
        (q, rw full eq, which))
  | inr room ↦ (
    m,
    rw room refl,
    inl (record {
      at = at;
      sized = sized;
      size = ground arith;
      bytes = bytes;
      waits = ground arith;
    }),
  )
]

-- One `read` of at most the bytes that were asked for, at any point of the message: the message is
-- whole afterwards if these were the last, else the buffer waits for the rest.
pub absorb-Holds :
    (e : Env) (w : List ℕ) (k n : ℕ) (m : MBuf)
    → IsMessage w
    → Holds w k m
    → 0 < n
    → k + n ≤ m.bsize
    → (q : MBuf) × (absorb e m (slice k n w) ≡ returns q) × (Holds w (k + n) q ⊎ Whole w q)
unfolding absorb take_in
absorb-Holds e w k n m ok h pos fits =
    let size = h.size in
    let inside : k + n ≤ length w = ground (arith, ok.least) in
    let (sized, at, bytes) = taken_in w k n m h fits inside in
    absorbed e w k (k + n) (take_in m (slice k n w)) ok (omega arith) fits size sized at bytes
