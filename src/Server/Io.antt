-- ===== src/Server/Io.antt =====
-- srvmain.c, `handle_io` and `upkeep`: the bytes that come from and go to the sockets.
use frelay.Common.{ℕ, zero, suc, ◌+◌, ◌-◌, List, [], ◌∷◌, length, get_elem?, write}
use frelay.Common.{Option, none, some, Bool, true, false, not, ltb, ◌==◌, if◌then◌else◌}
use frelay.Common.{Outcome, returns, faults, ◌>>=◌}
use frelay.Message.{MBuf, Env, mbuf_new, mbuf_resize, msg_hdr_size, hdr_get_paylen}
use frelay.Server.{
  Client, Server, FdSet, clt_invalid, is_open, put_client, close_client, is_overdue, resync_client,
  dequeue_msg,
}
use frelay.Server.Requests.{non_null}
use frelay.Server.Dispatch.{process_msg}

-- What `read` or `write` gave: bytes that came, or a number of bytes that went, or -1 with an
-- `errno` that asks to try again, or with another one.
pub data Transfer (A : Type 0) : Type 0 where
  moved : A → Transfer A
  again failed : Transfer A

-- The bytes that `read` stored at `boff`.
unfoldable pub take_in : MBuf → List ℕ → MBuf
take_in m bytes = record m { boff = m.boff + length bytes; b = write m.boff bytes m.b }

abbrev pub is_filled : MBuf → Bool
is_filled m = m.boff == m.bsize

-- After the header, room is made for the payload.
unfoldable pub expect_payload : Env → MBuf → Outcome MBuf
expect_payload e m =
    let paylen = hdr_get_paylen m in
    if m.boff == msg_hdr_size
    then (if ltb 0 paylen then mbuf_resize e m paylen else returns m)
    else returns m

-- A message that is complete is processed, and the buffer is forgotten.
unfoldable pub complete : Env → Server → ℕ → Client → MBuf → Outcome Server
complete e s i c m = do
  (s1, r) ← process_msg e s i c m
  c1 ← non_null (get_elem? s1.clients i)
  returns (put_client s1 i (record c1 { rbuf = none }))

unfoldable pub received : Env → Server → ℕ → Client → MBuf → Outcome Server
received e s i c m =
    if is_filled m
    then (do
      m1 ← expect_payload e m
      if is_filled m1
          then complete e s i c m1
          else returns (put_client s i (record c { rbuf = some m1 })))
    else returns (put_client s i (record c { rbuf = some m }))

-- The result is `false` where the loop continues with the next client.
unfoldable pub read_from :
    Env → ℕ → ℕ → Server → ℕ → Client → Transfer (List ℕ) → Outcome (Server × Bool)
read_from e msg_timeout now s i c0 t =
    let c1 = resync_client msg_timeout now c0 in
    let m : MBuf = elim c1.rbuf [ none ↦ mbuf_new e | some m ↦ m ] in
    let c = record c1 { rbuf = some m; act = now } in
    if ltb m.boff m.bsize
    then elim t [
      | failed ↦ returns (close_client s i c, false)
      | again ↦ returns (put_client s i c, true)
      | moved [] ↦ returns (close_client s i c, false)
      | moved (x ∷ xs) ↦ received e s i c (take_in m (x ∷ xs)) >>= λ s1. returns (s1, true)
    ]
    else received e s i c m >>= λ s1. returns (s1, true)

-- The first message of the queue; the send queue must not be empty.
unfoldable pub sent_from : Server → ℕ → Client → ℕ → Outcome Server
sent_from s i c w = elim c.queue [
  | [] ↦ faults
  | m ∷ rest ↦
      (let m1 = record m { boff = m.boff + w } in
        let c1 = record c { queue = m1 ∷ rest } in
        if is_filled m1 then dequeue_msg (put_client s i c1) i c1 else returns (put_client s i c1))
]

unfoldable pub write_to : ℕ → Server → ℕ → Client → Transfer ℕ → Outcome Server
write_to now s i c0 t =
    let c = record c0 { act = now } in
    elim c.queue [
      | [] ↦ faults
      | m ∷ rest ↦
          if ltb m.boff m.bsize
          then elim t [
            | failed ↦ returns (close_client s i c)
            | again ↦ returns (put_client s i c)
            | moved zero ↦ returns (close_client s i c)
            | moved (suc w) ↦ sent_from s i c (suc w)
          ]
          else sent_from s i c 0
    ]

unfoldable pub fd_isset : Option ℕ → FdSet → Bool
fd_isset none fds = false
fd_isset (some n) fds = fds n

-- What the system calls give for each slot in one round of `handle_io`.
pub record Sockets : Type 0 where
  pub rfds : FdSet
  pub wfds : FdSet
  pub reads : ℕ → Transfer (List ℕ)
  pub writes : ℕ → Transfer ℕ

unfoldable pub write_ready : ℕ → Sockets → ℕ → ℕ → Server → Outcome (Server × ℕ)
write_ready now k i nset s = do
  c ← non_null (get_elem? s.clients i)
  if fd_isset c.fd k.wfds
      then (write_to now s i c (k.writes i) >>= λ s1. returns (s1, nset - 1))
      else returns (s, nset)

unfoldable pub handle_open : Env → ℕ → ℕ → Sockets → ℕ → ℕ → Server → Client → Outcome (Server × ℕ)
handle_open e msg_timeout now k i nset s c =
    if fd_isset c.fd k.rfds
    then (do
      (s1, go_on) ← read_from e msg_timeout now s i c (k.reads i)
      if go_on then write_ready now k i (nset - 1) s1 else returns (s1, nset - 1))
    else write_ready now k i nset s

unfoldable pub handle_client : Env → ℕ → ℕ → Sockets → ℕ → ℕ → Server → Outcome (Server × ℕ)
handle_client e msg_timeout now k i nset s = do
  c ← non_null (get_elem? s.clients i)
  if is_open c then handle_open e msg_timeout now k i nset s c else returns (s, nset)

-- `left` slots are left, from `i` on.
unfoldable pub handle_io : ℕ → Env → ℕ → ℕ → Sockets → ℕ → ℕ → Server → Outcome (Server × ℕ)
handle_io zero e msg_timeout now k i nset s = returns (s, nset)
handle_io (suc left) e msg_timeout now k i nset s =
    if ltb 0 nset
    then (do
      (s1, nset1) ← handle_client e msg_timeout now k i nset s
      handle_io left e msg_timeout now k (i + 1) nset1 s1)
    else returns (s, nset)

-- An open client after the checks of `upkeep`; a client that timed out is closed.
unfoldable pub check_client : ℕ → ℕ → ℕ → Server → ℕ → Client → Server
check_client msg_timeout conn_timeout now s i c =
    if not (is_open c)
    then s
    else if is_overdue now c.act conn_timeout
    then close_client s i c
    else put_client s i (resync_client msg_timeout now c)

-- `c[j] = c[i]`, and slot `i` is given up.
unfoldable pub budge_up : Server → ℕ → ℕ → Client → Server
budge_up s i j c =
    if i == j then s else put_client (put_client s j c) i (record c { fd = none; st = clt_invalid })

unfoldable pub max_fd : ℕ → Option ℕ → ℕ
max_fd m none = m
max_fd m (some n) = if ltb m n then n else m

unfoldable pub upkeep_slot : Server → ℕ → ℕ → ℕ → Option Client → Server × ℕ × ℕ
upkeep_slot s i j maxfd none = (s, j, maxfd)
upkeep_slot s i j maxfd (some c) =
    if is_open c then (budge_up s i j c, j + 1, max_fd maxfd c.fd) else (s, j, maxfd)

unfoldable pub check_slot : ℕ → ℕ → ℕ → Server → ℕ → Option Client → Server
check_slot msg_timeout conn_timeout now s i none = s
check_slot msg_timeout conn_timeout now s i (some c) =
    check_client msg_timeout conn_timeout now s i c

-- `left` slots are left, from `i` on; the clients before `i` fill the slots before `j`.
unfoldable pub upkeep : ℕ → ℕ → ℕ → ℕ → Server → ℕ → ℕ → ℕ → Server × ℕ
upkeep zero msg_timeout conn_timeout now s i j maxfd = (s, maxfd)
upkeep (suc left) msg_timeout conn_timeout now s i j maxfd =
    let s1 = check_slot msg_timeout conn_timeout now s i (get_elem? s.clients i) in
    let (s2, j2, m2) = upkeep_slot s1 i j maxfd (get_elem? s1.clients i) in
    upkeep left msg_timeout conn_timeout now s2 (i + 1) j2 m2
