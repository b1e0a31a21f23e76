-- ===== src/Client/Rounds.antt =====
-- cltmain.c: one round of a file transfer.
use frelay.Common.{ℕ, ◌≡◌, refl, ap, ◌∙◌, arith}
use frelay.Common.{List, [], ◌∷◌, some, true, ◌==◌}
use frelay.Common.{returns, faults, ◌>>=◌, if◌then◌else◌}
use frelay.Message.{
  MBuf, hdr_get_srcid, hdr_get_type, hdr_get_dstid, hdr_get_trfid, mclass_is_req, mtype_get_class,
  mclass_to_res,
}
use frelay.Message.MsgType
use frelay.Message.Header.{Header, header}
use frelay.Message.RoundTrip.{Carries}
use frelay.Client.{Client, dequeue_msg, answers, match_pending_req}
use frelay.Client.Serving.{type_of, trfid_of, srcid_of}
use frelay.Client.Exchange.{sent}

dstid_of :
    (m : MBuf) (h : Header) (attrs : List (ℕ × List ℕ))
    → Carries m h attrs
    → hdr_get_dstid m ≡ h.dstid
unfolding header
dstid_of m h attrs c = ap (λ x. x.dstid) c.reads

pub Carries-queued :
    (m : MBuf) (h : Header) (attrs : List (ℕ × List ℕ))
    → Carries m h attrs
    → Carries (record m { boff = 0 }) h attrs
unfolding header
Carries-queued m h attrs c = record {
  wf = record { sized = c.wf.sized; least = c.wf.least; most = c.wf.most };
  rewound = refl;
  reads = c.reads;
  payload = c.payload;
}

-- The head of the queue, with `next` for what the type of the message makes of the rest.
dequeue_msg-head :
    (s : Client) (m : MBuf) (rest : List MBuf)
    → s.queue ≡ m ∷ rest
    → dequeue_msg s ≡ (
        if mclass_is_req (hdr_get_type m)
        then returns (record s { queue = rest; requests = m ∷ s.requests })
        else returns (record s { queue = rest }))
unfolding dequeue_msg
dequeue_msg-head s m rest e =
    ap
      (λ q. elim q [
        | [] ↦ faults
        | x ∷ more ↦
            if mclass_is_req (hdr_get_type x)
            then returns (record s { queue = more; requests = x ∷ s.requests })
            else returns (record s { queue = more })
      ])
      e

sent-head :
    (s s1 : Client) (m : MBuf) (rest : List MBuf)
    → s.queue ≡ m ∷ rest
    → dequeue_msg s ≡ returns s1
    → sent s ≡ returns (m, s1)
unfolding sent
sent-head s s1 m rest e d =
    ap (λ q. elim q [ [] ↦ faults | x ∷ more ↦ dequeue_msg s >>= λ s2. returns (x, s2) ]) e
    ∙ rw d refl

pub sent-request :
    (s : Client) (m : MBuf)
    → s.queue ≡ m ∷ []
    → s.requests ≡ []
    → hdr_get_type m ≡ MsgType.getfile_req
    → sent s ≡ returns (m, record s { queue = []; requests = m ∷ [] })
unfolding mclass_is_req mtype_get_class
sent-request s m e r t =
    let gone : dequeue_msg s ≡ returns (record s { queue = []; requests = m ∷ s.requests }) =
      rw t at (dequeue_msg-head s m [] e) in
    sent-head s _ m [] e (gone ∙ ap (λ l. returns (record s { queue = []; requests = m ∷ l })) r)

pub sent-answer :
    (s : Client) (m : MBuf)
    → s.queue ≡ m ∷ []
    → hdr_get_type m ≡ MsgType.getfile_res
    → sent s ≡ returns (m, record s { queue = [] })
unfolding mclass_is_req mtype_get_class
sent-answer s m e t = sent-head s _ m [] e (rw t at (dequeue_msg-head s m [] e))

-- The answer that comes back is matched with the request, the only one that waits.
pub answer-matches :
    (q r : MBuf) (hq hr : Header) (qs rs : List (ℕ × List ℕ))
    → Carries q hq qs
    → Carries r hr rs
    → hq.type ≡ MsgType.getfile_req
    → hr.type ≡ MsgType.getfile_res
    → hq.dstid ≡ hr.srcid
    → hq.trfid ≡ hr.trfid
    → match_pending_req r (q ∷ []) ≡ (some q, [])
unfolding match_pending_req answers mclass_to_res
answer-matches q r hq hr qs rs cq cr tq t_r d f =
    let same_peer : (hdr_get_dstid q == hdr_get_srcid r) ≡ true =
      ground (arith, dstid_of q hq qs cq, srcid_of r hr rs cr) in
    let same_transaction : (hdr_get_trfid q == hdr_get_trfid r) ≡ true =
      ground (arith, trfid_of q hq qs cq, trfid_of r hr rs cr) in
    let tq' = type_of q hq qs cq ∙ tq in
    let tr' = type_of r hr rs cr ∙ t_r in rw (same_peer, same_transaction, tq', tr') refl
