-- ===== src/Client/Exchange.antt =====
-- cltmain.c: a whole file transfer between two clients whose messages the server passes on.
use frelay.Common.{ℕ, zero, suc, ◌+◌, ◌%◌, ◌^◌, ◌≤◌, ◌<◌, ◌≡◌, refl, sym, ap, ◌∙◌, arith}
use frelay.Common.{List, [], ◌∷◌, length, take, drop, Option, none, some, ltb, true, false}
use frelay.Common.{Outcome, returns, faults, ◌>>=◌, length-take, length-drop}
use frelay.Message.{MBuf, hdr_set_srcid}
use frelay.Message.Header.{Header, header-set_srcid, set_srcid-KeepsShape}
use frelay.Message.RoundTrip.{Carries}
use frelay.Transfer.{Transfer}
use frelay.Transfer.FileAccess.{
  FileSys, offer_read, read_at, read_size, download_write, write_out, or_else, with_name,
}
use frelay.Client.{Client, Sys, dequeue_msg}
use frelay.Client.Dispatch.{process_srvmsg}

-- The server fills in the id of the sender.
abbrev pub relay : ℕ → MBuf → MBuf
relay id m = hdr_set_srcid m id

pub relay-Carries :
    (id : ℕ) (m : MBuf) (h : Header) (attrs : List (ℕ × List ℕ))
    → Carries m h attrs
    → Carries (relay id m) (record h { srcid = id % 2 ^ 64 }) attrs
relay-Carries id m h attrs c =
    let k = set_srcid-KeepsShape m id in
    record {
      wf = record {
        sized = k.length_kept ∙ c.wf.sized ∙ sym k.bsize_kept;
        least = omega (arith, c.wf.least, k.bsize_kept);
        most = omega (arith, c.wf.most, k.bsize_kept);
      };
      rewound = k.boff_kept ∙ c.rewound;
      reads =
          header-set_srcid m id (omega (arith, c.wf.sized, c.wf.least))
          ∙ ground (arith, c.reads, k.bsize_kept);
      payload = k.payload_kept ∙ c.payload;
    }

-- The first message of the queue goes out whole.
unfoldable pub sent : Client → Outcome (MBuf × Client)
sent s = elim s.queue [ [] ↦ faults | m ∷ rest ↦ dequeue_msg s >>= λ s1. returns (m, s1) ]

-- A request of `b` reaches `a`, and the answer reaches `b`.
unfoldable pub exchange : Sys → Sys → ℕ → ℕ → Client → Client → Outcome (Client × Client)
exchange ka kb ida idb a b = do
  (q, b1) ← sent b
  a1 ← process_srvmsg ka a (relay idb q)
  (r, a2) ← sent a1
  b2 ← process_srvmsg kb b1 (relay ida r)
  returns (a2, b2)

-- `n` rounds, from round `t` on.
unfoldable pub exchanges :
    (ℕ → Sys) → (ℕ → Sys) → ℕ → ℕ → ℕ → ℕ → Client → Client → Outcome (Client × Client)
exchanges ka kb ida idb zero t a b = returns (a, b)
exchanges ka kb ida idb (suc n) t a b = do
  (a1, b1) ← exchange (ka t) (kb t) ida idb a b
  exchanges ka kb ida idb n (t + 1) a1 b1

-- A file can be opened, and `read` gives its bytes.
pub record Holds (k : FileSys) (file content : List ℕ) : Type 0 where
  pub fd : ℕ
  pub opens : k.opened file ≡ some fd
  pub seeks : (off : ℕ) → k.seek off ≡ true
  pub mallocs : (sz : ℕ) → sz ≤ 65376 → k.malloc sz ≡ true
  pub reads : (off sz : ℕ) → k.read off sz ≡ some (take sz (drop off content))

read_at-whole :
    (k : FileSys) (o : Transfer) (off sz : ℕ) (bytes : List ℕ)
    → k.seek off ≡ true
    → k.malloc sz ≡ true
    → k.read off sz ≡ some bytes
    → length bytes ≡ sz
    → 0 < sz
    → read_at k o off sz ≡ returns (o, some bytes, sz)
unfolding read_at
read_at-whole k o off sz [] s m r n h = absurd (omega (arith, n))
read_at-whole k o off sz (x ∷ xs) s m r n h =
    let size : read_size sz (length (x ∷ xs)) ≡ sz = ground (arith, n) in
    rw (s, m, r) (ap (λ z. returns (o, some (x ∷ xs), z)) size)

pub offer_read-Holds :
    (k : FileSys) (file content : List ℕ) (o : Transfer) (off sz : ℕ)
    → Holds k file content
    → o.name ≡ some file
    → 0 < sz
    → sz ≤ 65376
    → off + sz ≤ length content
    → (n : ℕ) × (offer_read k o off sz
        ≡ returns (record o { fd = some n }, some (take sz (drop off content)), sz))
unfolding offer_read
offer_read-Holds k file content o off sz h en some_size small room = by_fd o.fd refl
  where
    bytes : List ℕ
    bytes = take sz (drop off content)

    sized : length bytes ≡ sz
    sized = omega (arith, length-take sz (drop off content), length-drop off content)

    read_whole :
        (n : ℕ)
        → read_at k (record o { fd = some n }) off sz
          ≡ returns (record o { fd = some n }, some bytes, sz)
    read_whole n =
        read_at-whole k (record o { fd = some n }) off sz bytes (h.seeks off) (h.mallocs sz small)
          (h.reads off sz) sized some_size

    with_fd :
        (n : ℕ)
        → or_else o.fd (with_name k.opened o.name) ≡ some n
        → offer_read k o off sz ≡ returns (record o { fd = some n }, some bytes, sz)
    with_fd n e =
        ap
          (λ f. elim f [
            | none ↦ returns (record o { fd = none }, none, sz)
            | some j ↦ read_at k (record o { fd = some j }) off sz
          ])
          e
        ∙ read_whole n

    by_fd :
        (f : Option ℕ)
        → o.fd ≡ f
        → (n : ℕ) × (offer_read k o off sz ≡ returns (record o { fd = some n }, some bytes, sz))
    by_fd none e = (
      h.fd,
      with_fd h.fd (
          ap (λ f. or_else f (with_name k.opened o.name)) e ∙ ap (with_name k.opened) en ∙ h.opens),
    )
    by_fd (some n) e = (n, with_fd n (ap (λ f. or_else f (with_name k.opened o.name)) e))

write_out-all :
    (k : FileSys) (u : Transfer) (bytes : List ℕ)
    → k.write bytes ≡ some (length bytes)
    → write_out k u bytes ≡ (u, true, bytes)
unfolding write_out
write_out-all k u bytes w =
    let all : ltb (length bytes) (length bytes) ≡ false = ground arith in
    rw (w, write_out) (rw all refl)

pub download_write-all :
    (k : FileSys) (d : Transfer) (n : ℕ) (bytes : List ℕ)
    → d.fd ≡ some n
    → k.write bytes ≡ some (length bytes)
    → download_write k d bytes ≡ (record d { fd = some n }, true, bytes)
unfolding download_write write_out
download_write-all k d n bytes e w =
    ap
      (λ f. elim (or_else f (with_name k.created d.partname)) [
        | none ↦ (record d { fd = none }, false, [])
        | some j ↦ write_out k (record d { fd = some j }) bytes
      ])
      e
    ∙ write_out-all k (record d { fd = some n }) bytes w
