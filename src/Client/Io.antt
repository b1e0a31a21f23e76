-- ===== src/Client/Io.antt =====
-- cltmain.c, `handle_srvio` and the upkeep of `main`: the bytes from and to the server.
use frelay.Common.{ℕ, zero, suc, ◌+◌, ◌-◌, List, [], ◌∷◌}
use frelay.Common.{some, Bool, true, false, ltb, if◌then◌else◌}
use frelay.Common.{if_some, Outcome, returns, faults, ◌>>=◌}
use frelay.Message.MsgType
use frelay.Message.{MBuf, mbuf_new}
use frelay.Server.{FdSet}
use frelay.Server.Io.{Transfer, moved, again, failed, take_in, is_filled, expect_payload}
use frelay.Transfer.{transfer_upkeep}
use frelay.Client.{
  Client, Sys, is_auth_ok, enqueue_msg, dequeue_msg, upkeep_pending, connection_lost,
}
use frelay.Client.Attributes.{compose}
use frelay.Client.Dispatch.{process_srvmsg}

-- The buffer after bytes have come.
unfoldable pub received : Sys → Client → MBuf → Outcome Client
received k s m =
    if is_filled m
    then (do
      m1 ← expect_payload k.env m
      let s1 = record s { rbuf = some m1 }
      if is_filled m1 then process_srvmsg k s1 m1 else returns s1)
    else returns (record s { rbuf = some m })

-- The receive buffer, a new one if there is none.
abbrev pub buffer_of : Sys → Client → MBuf
buffer_of k s = if_some s.rbuf (mbuf_new k.env) (λ m. m)

-- The result is `false` behind the label `DISC`.
unfoldable pub read_from : Sys → Client → Transfer (List ℕ) → Outcome (Client × Bool)
read_from k s0 t =
    let m = buffer_of k s0 in
    let s = record s0 { rbuf = some m } in
    if ltb m.boff m.bsize
    then elim t [
      | failed ↦ returns (connection_lost s, false)
      | again ↦ returns (s, true)
      | moved [] ↦ returns (connection_lost s, false)
      | moved (x ∷ xs) ↦ received k s (take_in m (x ∷ xs)) >>= λ s1. returns (s1, true)
    ]
    else received k s m >>= λ s1. returns (s1, true)

-- `w` bytes of the first message have gone; one that has gone is taken off the queue.
unfoldable pub sent_from : Client → MBuf → List MBuf → ℕ → Outcome Client
sent_from s m rest w =
    let m1 = record m { boff = m.boff + w } in
    let s1 = record s { queue = m1 ∷ rest } in if is_filled m1 then dequeue_msg s1 else returns s1

unfoldable pub write_to : Client → Transfer ℕ → Outcome Client
write_to s t = elim s.queue [
  | [] ↦ faults
  | m ∷ rest ↦
      if ltb m.boff m.bsize
      then elim t [
        | failed ↦ returns (connection_lost s)
        | again ↦ returns s
        | moved zero ↦ returns (connection_lost s)
        | moved (suc w) ↦ sent_from s m rest (suc w)
      ]
      else sent_from s m rest 0
]

-- What `select`, `read` and `write` give for the connection.
pub record Socket : Type 0 where
  pub rfds : FdSet
  pub wfds : FdSet
  pub reads : Transfer (List ℕ)
  pub writes : Transfer ℕ

unfoldable pub write_ready : Socket → ℕ → ℕ → Client → Outcome (Client × ℕ)
write_ready w fd nset s =
    if ltb 0 nset
    then (if w.wfds fd
        then (write_to s w.writes >>= λ s1. returns (s1, nset - 1))
        else returns (s, nset))
    else returns (s, nset)

unfoldable pub handle_open : Sys → Socket → ℕ → ℕ → Client → Outcome (Client × ℕ)
handle_open k w fd nset s =
    if w.rfds fd
    then (do
      (s1, go_on) ← read_from k s w.reads
      if go_on then write_ready w fd (nset - 1) s1 else returns (s1, nset - 1))
    else write_ready w fd nset s

unfoldable pub handle_srvio : Sys → Socket → ℕ → Client → Outcome (Client × ℕ)
handle_srvio k w nset s = if_some s.srvfd (returns (s, nset)) (λ fd. handle_open k w fd nset s)

-- A client that is logged in sends a ping to the server.
unfoldable pub keep_alive : Sys → Client → Outcome Client
keep_alive k s =
    if is_auth_ok s.st
    then (do mb ← compose k MsgType.ping_ind 0 k.random []; returns (enqueue_msg s mb))
    else returns s

unfoldable pub upkeep : Sys → Client → Outcome Client
upkeep k s = do
  s1 ← keep_alive k s
  returns (record s1 {
    requests = upkeep_pending k.now s1.cfg.resp_timeout s1.requests;
    transfers = transfer_upkeep s1.cfg.offer_timeout k.now s1.transfers;
  })
