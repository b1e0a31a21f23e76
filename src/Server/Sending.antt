-- ===== src/Server/Sending.antt =====
-- srvmain.c, `handle_io`: writing to a descriptor that is ready.
use frelay.Common.{
  ℕ, suc, zero, ◌≡◌, refl, sym, ap, ◌∙◌, ◌+◌, List, ◌∷◌, [], get_elem?, set, some, true, returns,
  faults, if◌then◌else◌, Outcome, ltb, Bool-cases, inl, inr,
}
use frelay.Message.{MBuf}
use frelay.Server.{Client, Server, put_client, close_client}
use frelay.Server.Descriptors.{has_mail, IsSound, DistinctFds-set, AllInOrder-set}
use frelay.Server.Queues.{dequeue_msg-IsSound, closed-IsSound}
use frelay.Server.Io.{Transfer, moved, again, failed, is_filled, sent_from, write_to}

-- A client is replaced by one that has the same descriptor and still has messages to send.
put_client-IsSound :
    (s : Server) (i : ℕ) (c new : Client) (n : ℕ)
    → IsSound s
    → get_elem? s.clients i ≡ some c
    → c.fd ≡ some n
    → s.m_wfds n ≡ true
    → new.fd ≡ some n
    → has_mail new ≡ true
    → IsSound (put_client s i new)
unfolding put_client
put_client-IsSound s i c new n v e en armed same mail = record {
  distinct = DistinctFds-set s.clients i c new e (same ∙ sym en) v.distinct;
  in_order =
      AllInOrder-set s.m_wfds s.m_wfds n s.clients i c new e en (rw same (armed ∙ sym mail))
        (λ k h. refl) v.distinct v.in_order;
}

get_elem?-set_here :
    (cs : List Client) (i : ℕ) (c new : Client)
    → get_elem? cs i ≡ some c
    → get_elem? (set cs i new) i ≡ some new
get_elem?-set_here [] i c new e = cc
get_elem?-set_here (x ∷ cs) zero c new e = refl
get_elem?-set_here (x ∷ cs) (suc i) c new e = get_elem?-set_here cs i c new e

-- The bytes that went are counted; a message that has gone is taken off the queue.
sent_from-IsSound :
    (s : Server) (i : ℕ) (c d : Client) (n w : ℕ) (m : MBuf) (rest : List MBuf)
    → IsSound s
    → get_elem? s.clients i ≡ some c
    → c.fd ≡ some n
    → s.m_wfds n ≡ true
    → d.fd ≡ some n
    → d.queue ≡ m ∷ rest
    → (t : Server) × (sent_from s i d w ≡ returns t) × IsSound t
unfolding sent_from put_client
sent_from-IsSound s i c d n w m rest v e en armed dn q =
    let m1 = record m { boff = m.boff + w } in
    let d1 = record d { queue = m1 ∷ rest } in
    let kept = put_client-IsSound s i c d1 n v e en armed dn refl in
    elim (Bool-cases (is_filled m1)) [
      | inl full ↦
          (let here = get_elem?-set_here s.clients i c d1 e in
            let (t, _, _, _, taken, _, sound) =
              dequeue_msg-IsSound (put_client s i d1) i d1 n kept here dn armed in
            (t, rw (q, full) taken, sound))
      | inr partial ↦ (put_client s i d1, rw (q, partial) refl, kept)
    ]

-- The first message `m` is written, or it had been written already.
attempt : Server → ℕ → Client → MBuf → Transfer ℕ → Outcome Server
attempt s i c m t =
    if ltb m.boff m.bsize
    then elim t [
      | failed ↦ returns (close_client s i c)
      | again ↦ returns (put_client s i c)
      | moved zero ↦ returns (close_client s i c)
      | moved (suc w) ↦ sent_from s i c (suc w)
    ]
    else sent_from s i c 0

write_to-attempt :
    (now : ℕ) (s : Server) (i : ℕ) (c : Client) (m : MBuf) (rest : List MBuf) (t : Transfer ℕ)
    → c.queue ≡ m ∷ rest
    → write_to now s i c t ≡ attempt s i (record c { act = now }) m t
unfolding write_to attempt
write_to-attempt now s i c m rest t q =
    ap (λ l. elim l [ [] ↦ faults | x ∷ xs ↦ attempt s i (record c { act = now }) x t ]) q

-- Where the sets and the queues are in order, writing to a client whose descriptor is ready never
-- reads an empty queue, whatever the system call gives: it returns, and everything is in order
-- again.
pub write_to-IsSound :
    (now : ℕ) (s : Server) (i : ℕ) (c : Client) (n : ℕ) (t : Transfer ℕ)
    → IsSound s
    → get_elem? s.clients i ≡ some c
    → c.fd ≡ some n
    → s.m_wfds n ≡ true
    → (u : Server) × (write_to now s i c t ≡ returns u) × IsSound u
unfolding put_client close_client attempt
write_to-IsSound now s i c n t v e en armed =
    let (_, m, rest, q, _, _, _) = dequeue_msg-IsSound s i c n v e en armed in
    let (u, r, sound) = attempt-IsSound m rest t q in
    (u, write_to-attempt now s i c m rest t q ∙ r, sound)
  where
    sent :
        (m : MBuf) (rest : List MBuf) (w : ℕ)
        → c.queue ≡ m ∷ rest
        → (u : Server) × (sent_from s i (record c { act = now }) w ≡ returns u) × IsSound u
    sent m rest w q = sent_from-IsSound s i c (record c { act = now }) n w m rest v e en armed en q

    attempt-IsSound :
        (m : MBuf) (rest : List MBuf) (t : Transfer ℕ)
        → c.queue ≡ m ∷ rest
        → (u : Server) × (attempt s i (record c { act = now }) m t ≡ returns u) × IsSound u
    attempt-IsSound m rest t q = elim (Bool-cases (ltb m.boff m.bsize)) [
      | inr done ↦ rw done (sent m rest 0 q)
      | inl left ↦ by_result t left
    ]
      where
        by_result :
            (k : Transfer ℕ)
            → ltb m.boff m.bsize ≡ true
            → (u : Server) × (attempt s i (record c { act = now }) m k ≡ returns u) × IsSound u
        by_result failed h = (close_client s i c, rw h refl, closed-IsSound s i c n v e en)
        by_result again h = (
          put_client s i (record c { act = now }),
          rw h refl,
          put_client-IsSound s i c (record c { act = now }) n v e en armed en (rw q refl),
        )
        by_result (moved zero) h = (close_client s i c, rw h refl, closed-IsSound s i c n v e en)
        by_result (moved (suc w)) h = rw h (sent m rest (suc w) q)
