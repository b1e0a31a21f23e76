-- ===== src/Server/Arrival.antt =====
-- srvmain.c, `handle_io`: what one `read` leaves of a client, and when its message is processed.
use frelay.Common.{ℕ, ◌+◌, ◌≤◌, ◌<◌, ◌≡◌, refl, sym, ap, ◌∙◌, arith}
use frelay.Common.{List, ◌∷◌, length, slice, length-slice}
use frelay.Common.{true, false, ltb, if◌then◌else◌, Bool-cases, inl, inr}
use frelay.Common.{none, some, Outcome, returns, ◌>>=◌}
use frelay.Message.{MBuf, Env, mbuf_new}
use frelay.Server.{Client, Server, put_client, resync_client}
use frelay.Server.Dispatch.{process_msg}
use frelay.Server.Requests.{non_null}
use frelay.Common.{Bool, [], get_elem?, dies, faults}
use frelay.Server.Io.{take_in, is_filled, received, complete, read_from, moved}
use frelay.Server.Framing.{absorb, absorb-Holds, IsMessage, Holds, Whole}

received-absorb :
    (e : Env) (s : Server) (i : ℕ) (c : Client) (m : MBuf) (bytes : List ℕ) (q : MBuf)
    → absorb e m bytes ≡ returns q
    → received e s i c (take_in m bytes) ≡ (
        if is_filled q
        then complete e s i c q
        else returns (put_client s i (record c { rbuf = some q })))
unfolding received absorb
received-absorb e s i c m bytes q eq = elim (Bool-cases (is_filled (take_in m bytes))) [
  | inl full ↦ (let ep = rw full at eq in rw (full, ep) refl)
  | inr room ↦
      (let same : take_in m bytes ≡ q = returns_injective (rw room at eq) in
        let room' : is_filled q ≡ false = sym (ap (λ z. is_filled z) same) ∙ room in
        rw (room, room') (ap (λ z. returns (put_client s i (record c { rbuf = some z }))) same))
]
  where
    returns_injective : {a b : MBuf} → Path (Outcome MBuf) (returns a) (returns b) → a ≡ b
    returns_injective h = cc

-- The receive buffer that is read into, a new one if there is none.
abbrev buffer_of : Env → Client → MBuf
buffer_of e c = elim c.rbuf [ none ↦ mbuf_new e | some m ↦ m ]

read_from-absorbs :
    (e : Env) (msg_timeout now : ℕ) (s : Server) (i : ℕ) (c c1 : Client) (m : MBuf) (x : ℕ)
    (xs : List ℕ) (q : MBuf)
    → resync_client msg_timeout now c ≡ c1
    → buffer_of e c1 ≡ m
    → m.boff < m.bsize
    → absorb e m (x ∷ xs) ≡ returns q
    → read_from e msg_timeout now s i c (moved (x ∷ xs)) ≡ (
        (if is_filled q
          then complete e s i (record c1 { rbuf = some m; act = now }) q
          else returns (put_client s i (record c1 { rbuf = some q; act = now })))
        >>= λ s1. returns (s1, true))
unfolding read_from
read_from-absorbs e msg_timeout now s i c c1 m x xs q kept buffer room eq =
    let open_buffer : ltb m.boff m.bsize ≡ true = ground arith in
    rw
      (
        kept,
        buffer,
        open_buffer,
        received-absorb e s i (record c1 { rbuf = some m; act = now }) m (x ∷ xs) q eq,
      )
      refl

-- What becomes of a client whose buffer has come to the first `j` bytes of the message `w`: the
-- buffer is kept, or it is the message, which is processed and then forgotten.
pub data Reads (e : Env) (s : Server) (i : ℕ) (c : Client) (w : List ℕ) (j : ℕ)
    (o : Outcome (Server × Bool)) : Type 0 where
  waiting :
      (q : MBuf)
      → Holds w j q
      → o ≡ returns (put_client s i (record c { rbuf = some q }), true)
      → Reads e s i c w j o
  processed :
      (q : MBuf)
      → Whole w q
      → o ≡ (
          process_msg e s i c q >>= λ r. non_null (get_elem? r.0.clients i) >>= λ c1.
          returns (put_client r.0 i (record c1 { rbuf = none }), true))
      → Reads e s i c w j o

waits_not_filled : (w : List ℕ) (j : ℕ) (q : MBuf) → Holds w j q → is_filled q ≡ false
waits_not_filled w j q h = ground (arith, h.at, h.waits)

completes :
    (e : Env) (s : Server) (i : ℕ) (c : Client) (q : MBuf)
    → ◌>>=◌ {B = Server × Bool} (complete e s i c q) (λ s1. returns (s1, true)) ≡ (
        process_msg e s i c q >>= λ r. non_null (get_elem? r.0.clients i) >>= λ c1.
        returns (put_client r.0 i (record c1 { rbuf = none }), true))
unfolding complete
completes e s i c q = by_outcome (process_msg e s i c q)
  where
    by_slot :
        (u : Server) (o : Outcome Client)
        → ◌>>=◌ {B = Server × Bool}
            (o >>= λ c1. returns (put_client u i (record c1 { rbuf = none })))
            (λ s1. returns (s1, true))
          ≡ (o >>= λ c1. returns (put_client u i (record c1 { rbuf = none }), true))
    by_slot u (returns c1) = refl
    by_slot u dies = refl
    by_slot u faults = refl

    by_outcome :
        (o : Outcome (Server × Bool))
        → ◌>>=◌ {B = Server × Bool}
            (o >>= λ r. non_null (get_elem? r.0.clients i) >>= λ c1.
              returns (put_client r.0 i (record c1 { rbuf = none })))
            (λ s1. returns (s1, true))
          ≡ (o >>= λ r. non_null (get_elem? r.0.clients i) >>= λ c1.
              returns (put_client r.0 i (record c1 { rbuf = none }), true))
    by_outcome (returns r) = by_slot r.0 (non_null (get_elem? r.0.clients i))
    by_outcome dies = refl
    by_outcome faults = refl

-- A client whose buffer, after one that timed out was dropped, holds the first `k` bytes of a
-- message, sends `n` more, at most as many as the buffer has room for. Either the buffer then waits
-- with the first `k + n` bytes, and nothing else changes but the time of the last activity; or it
-- is the whole message, byte for byte, which is processed at once, and the client, if it is still
-- there, has no buffer any more.
pub read_from-Reads :
    (e : Env) (msg_timeout now : ℕ) (s : Server) (i : ℕ) (c c1 : Client) (m : MBuf) (w : List ℕ)
    (k n : ℕ)
    → resync_client msg_timeout now c ≡ c1
    → buffer_of e c1 ≡ m
    → IsMessage w
    → Holds w k m
    → 0 < n
    → k + n ≤ m.bsize
    → Reads e s i
        (record c1 { rbuf = some m; act = now })
        w
        (k + n)
        (read_from e msg_timeout now s i c (moved (slice k n w)))
read_from-Reads e msg_timeout now s i c c1 m w k n kept buffer ok h pos fits =
    by_bytes (slice k n w) refl
  where
    inside : k + n ≤ length w
    inside = ground (arith, ok.least, h.size)

    c2 : Client
    c2 = record c1 { rbuf = some m; act = now }

    by_bytes :
        (bs : List ℕ)
        → slice k n w ≡ bs
        → Reads e s i c2 w (k + n) (read_from e msg_timeout now s i c (moved bs))
    by_bytes [] h1 = absurd (omega (arith, length-slice k n w inside, ap (λ bs. length bs) h1))
    by_bytes (x ∷ xs) h1 =
        let (q, eq, which) = absorb-Holds e w k n m ok h pos fits in
        let run =
          read_from-absorbs e msg_timeout now s i c c1 m x xs q kept buffer
            (omega (arith, h.at, h.waits)) (ap (absorb e m) (sym h1) ∙ eq) in
        elim which [
          | inl held ↦ waiting q held (run ∙ rw (waits_not_filled w (k + n) q held) refl)
          | inr whole ↦
              (let full : is_filled q ≡ true = ground (arith, whole.filled) in
                processed q whole (run ∙ rw full (completes e s i c2 q)))
        ]
