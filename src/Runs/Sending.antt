-- ===== src/Runs/Sending.antt =====
-- Send queues of the server of srvmain.c at concrete inputs.
use frelay.Common.{
  arith, false, none, some, get_elem?, ◌≡◌, ◌==◌, refl, List, [], ◌∷◌, set, returns,
}
use frelay.Message.{MBuf}
use frelay.Server.{Client, Server, enqueue_msg, dequeue_msg, close_client}
use frelay.Server.Descriptors.{IsSound}
use frelay.Server.Queues.{enqueue_msg-IsSound, dequeue_msg-IsSound, close_client-IsSound}
use frelay.Server.Io.{moved, write_to}
use frelay.Server.Sending.{write_to-IsSound}
use frelay.Runs.Traffic.{server, alice, guest, bob, bob_again, ping}

abbrev alice_waits : Client
alice_waits = record alice { queue = ping ∷ [] }

-- A message waits for Alice, on descriptor 4.
abbrev waiting : Server
waiting = record server {
  clients = alice_waits ∷ guest ∷ bob_again ∷ bob ∷ [];
  m_wfds = λ n. n == 4;
}

waiting-IsSound : IsSound waiting
waiting-IsSound = record {
  distinct = (
    ((λ e. cc), ((λ e. cc), ((λ e. cc), tt))),
    (((λ e. cc), ((λ e. cc), tt)), (((λ e. cc), tt), (tt, tt))),
  );
  in_order = (refl, (refl, (refl, (refl, tt))));
}

enqueue_msg-IsSound_example : IsSound (enqueue_msg waiting 3 bob ping)
enqueue_msg-IsSound_example = enqueue_msg-IsSound waiting 3 bob ping 7 waiting-IsSound refl refl

dequeue_msg-IsSound_example :
    (t : Server) × (m : MBuf) × (rest : List MBuf) × (alice_waits.queue ≡ m ∷ rest)
    × (dequeue_msg waiting 0 alice_waits ≡ returns t)
    × (t.clients ≡ set waiting.clients 0 (record alice_waits { queue = rest }))
    × IsSound t
dequeue_msg-IsSound_example =
    dequeue_msg-IsSound waiting 0 alice_waits 4 waiting-IsSound refl refl refl

close_client-IsSound_example :
    IsSound (close_client waiting 0 alice_waits)
    × ((close_client waiting 0 alice_waits).m_rfds 4 ≡ false)
    × ((close_client waiting 0 alice_waits).m_wfds 4 ≡ false)
    × ((close_client waiting 0 alice_waits).m_rfds 7 ≡ waiting.m_rfds 7)
    × ((close_client waiting 0 alice_waits).m_wfds 7 ≡ waiting.m_wfds 7)
    × ((x : Client) × (get_elem? (close_client waiting 0 alice_waits).clients 0 ≡ some x)
        × (x.fd ≡ none)
        × (x.queue ≡ [])
        × (x.rbuf ≡ none))
    × (get_elem? (close_client waiting 0 alice_waits).clients 3 ≡ get_elem? waiting.clients 3)
close_client-IsSound_example =
    close_client-IsSound waiting 0 alice_waits 4 7 3 waiting-IsSound refl refl
      (λ e. omega (arith, e)) (λ e. omega (arith, e))

write_to-IsSound_example :
    (u : Server) × (write_to 20 waiting 0 alice_waits (moved 8) ≡ returns u) × IsSound u
write_to-IsSound_example =
    write_to-IsSound 20 waiting 0 alice_waits 4 (moved 8) waiting-IsSound refl refl refl
