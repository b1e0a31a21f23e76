-- ===== src/Server/Reassembly.antt =====
-- srvmain.c, `handle_io`: a message arrives whole, however the stream is cut into reads.
use frelay.Common.{ℕ, ◌+◌, ◌-◌, ◌≤◌, ◌<◌, ◌≡◌, refl, ap, ◌∙◌, arith}
use frelay.Common.{List, [], ◌∷◌, ◌++◌, length, take, drop, slice, slice-append_left, drop-drop}
use frelay.Common.{true, false, ltb, if◌then◌else◌, inl, inr}
use frelay.Common.{Outcome, returns, ◌>>=◌}
use frelay.Message.{MBuf, Env, mbuf_new}
use frelay.Message.Buffer.{mbuf_new-IsWf}
use frelay.Server.Io.{is_filled}
use frelay.Server.Framing.{absorb, IsMessage, Holds, Whole, absorb-Holds}

-- A socket that has `n + 1` bytes available delivers these, or as many as were asked for.
read_size : ℕ → MBuf → ℕ
read_size n m = if ltb (m.bsize - m.boff) (n + 1) then m.bsize - m.boff else n + 1

-- Reads until the message is complete: what is available at each call, and the stream.
pub read_all : Env → MBuf → List ℕ → List ℕ → Outcome MBuf
read_all e m [] stream = returns m
read_all e m (n ∷ ns) stream =
    let more = absorb e m (take (read_size n m) stream) >>= λ q.
    read_all e q ns (drop (read_size n m) stream) in
    if is_filled m then returns m else more

read_all-filled :
    (e : Env) (m : MBuf) (ns stream : List ℕ)
    → m.boff ≡ m.bsize
    → read_all e m ns stream ≡ returns m
unfolding read_all
read_all-filled e m [] stream h = refl
read_all-filled e m (n ∷ ns) stream h = let full : is_filled m ≡ true = ground arith in rw full refl

read_all-next :
    (e : Env) (m q : MBuf) (n : ℕ) (ns stream : List ℕ)
    → m.boff < m.bsize
    → absorb e m (take (read_size n m) stream) ≡ returns q
    → read_all e m (n ∷ ns) stream ≡ read_all e q ns (drop (read_size n m) stream)
unfolding read_all
read_all-next e m q n ns stream h eq =
    let room : is_filled m ≡ false = ground arith in rw (room, eq) refl

read_size_bounds :
    (n : ℕ) (m : MBuf) → m.boff < m.bsize → (0 < read_size n m) × (m.boff + read_size n m ≤ m.bsize)
unfolding read_size
read_size_bounds n m h = (ground arith, ground arith)

read_all-Whole :
    (e : Env) (w : List ℕ) (k : ℕ) (m : MBuf) (ns next : List ℕ)
    → IsMessage w
    → Holds w k m
    → length w ≤ k + length ns
    → (q : MBuf) × (read_all e m ns (drop k (w ++ next)) ≡ returns q) × Whole w q
unfolding slice
read_all-Whole e w k m [] next ok h enough =
    let size = h.size in absurd (ground (arith, ok.least, h.waits))
read_all-Whole e w k m (n ∷ ns) next ok h enough =
    let (pos, fits) = read_size_bounds n m (omega (arith, h.at, h.waits)) in
    let r = read_size n m in
    let size = h.size in
    let inside : k + r ≤ length w = ground (arith, ok.least, h.at) in
    let (q, eq, which) = absorb-Holds e w k r m ok h pos (omega (arith, h.at)) in
    let cut : absorb e m (take r (drop k (w ++ next))) ≡ returns q =
      ap (absorb e m) (slice-append_left k r w next inside) ∙ eq in
    let step =
      read_all-next e m q n ns (drop k (w ++ next)) (omega (arith, h.at, h.waits)) cut
      ∙ ap (read_all e q ns) (drop-drop r k (w ++ next)) in
    elim which [
      | inl held ↦
          (let (z, ez, whole) = read_all-Whole e w (k + r) q ns next ok held (omega arith) in
            (z, step ∙ ez, whole))
      | inr whole ↦ (q, step ∙ read_all-filled e q ns _ whole.filled, whole)
    ]

new-Holds : (e : Env) (w : List ℕ) → Holds w 0 (mbuf_new e)
unfolding mbuf_new
new-Holds e w = record {
  at = refl;
  sized = (mbuf_new-IsWf e).sized;
  size = refl;
  bytes = refl;
  waits = omega arith;
}

-- A message arrives whole however the stream is cut: when the next bytes of the stream are those of
-- one message, reading into a new buffer, each time as many bytes as happen to be available and at
-- most those that are asked for, ends after at most as many calls as the message has bytes, without
-- a fault, and the buffer then holds exactly this message and nothing of what follows it.
pub read_all-new :
    (e : Env) (w ns next : List ℕ)
    → IsMessage w
    → length w ≤ length ns
    → (q : MBuf) × (read_all e (mbuf_new e) ns (w ++ next) ≡ returns q) × Whole w q
read_all-new e w ns next ok enough =
    read_all-Whole e w 0 (mbuf_new e) ns next ok (new-Holds e w) (omega arith)
