-- ===== src/Client/Session.antt =====
-- cltmain.c, `process_srvmsg` as a whole: the login, the requests and the send queue.
use frelay.Common.{ℕ, ◌≡◌, ◌⊎◌, refl, sym, ap, ◌∙◌, List, [], ◌∷◌, ◌++◌, Option, none, some}
use frelay.Common.{true_is_not_false, false, ◌==◌, Bool-cases, Option-cases, inl, inr}
use frelay.Common.{Outcome, returns}
use mathlib.Core.List.{append-nil}
use mathlib.Core.Path.{subst}
use frelay.Common.Ensures.{Ensures, Ensures-returns, Ensures-bind, Ensures-then}
use frelay.Message.{
  MBuf, hdr_get_type, hdr_get_srcid, hdr_get_trfid, mclass_is_res, mtype_get_class,
  mbuf_resetgetattrib,
}
use frelay.Message.MsgType
use frelay.Status.{sc_ok}
use frelay.Client.{Client, Sys, CltState, enqueue_msg, match_pending_req}
use frelay.Client.Attributes.{Turn}
use frelay.Client.Dispatch.{settle, handle, respond, process_srvmsg}
use frelay.Client.Login.{
  Move, stay, admitted, challenged_, authenticated, logged_out, rejected, Moved, first_attr,
  serve-Moved,
}

-- The client after a message, against the client before.
pub record Handled (m : MBuf) (s t : Client) : Type 0 where
  pub moved : Move (hdr_get_type m) (hdr_get_srcid m) (first_attr (mbuf_resetgetattrib m)) s.st t.st
  pub cfg_kept : t.cfg ≡ s.cfg
  pub connected : t.srvfd ≡ s.srvfd
  pub sent : List MBuf
  pub queued : t.queue ≡ s.queue ++ sent
  pub forgotten : t.rbuf ≡ none
  pub answered :
      (t.st ≡ s.st)
      ⊎ ((hdr_get_type m ≡ MsgType.auth_err)
          ⊎ ((q : MBuf) × ((match_pending_req m s.requests).0 ≡ some q)))

-- The same without `answered`, and with the requests.
abbrev Settled : MBuf → Client → Client → Type 0
Settled m s t =
    Move (hdr_get_type m) (hdr_get_srcid m) (first_attr (mbuf_resetgetattrib m)) s.st t.st
    × (t.cfg ≡ s.cfg)
    × (t.srvfd ≡ s.srvfd)
    × ((sent : List MBuf) × (t.queue ≡ s.queue ++ sent))
    × (t.rbuf ≡ none)

settle-Settled :
    (k : Sys) (s : Client) (m : MBuf) (t : Turn)
    → Moved (hdr_get_type m) (hdr_get_srcid m) (first_attr (mbuf_resetgetattrib m)) s t
    → Ensures (Settled m s) (settle k m t)
unfolding settle enqueue_msg
settle-Settled k s m t h = elim (Bool-cases (t.status == sc_ok)) [
  | inl ok ↦ elim (Option-cases t.mp) [
    | inl none_ ↦
        rw (ok, none_)
          (Ensures-returns _ (h.0, h.1, h.2, ([], h.3 ∙ sym (append-nil s.queue)), refl))
    | inr (mp, some_) ↦
        rw (ok, some_)
          (Ensures-returns _ (
            h.0,
            h.1,
            h.2,
            (record mp { boff = 0 } ∷ [], ap (λ q. q ++ record mp { boff = 0 } ∷ []) h.3),
            refl,
          ))
  ]
  | inr bad ↦ rw bad (
      Ensures-bind _ _ (λ r. Ensures-returns _ (
        h.0,
        h.1,
        h.2,
        (record r { boff = 0 } ∷ [], ap (λ q. q ++ record r { boff = 0 } ∷ []) h.3),
        refl,
      )))
]

handle-Settled : (k : Sys) (s : Client) (m : MBuf) → Ensures (Settled m s) (handle k s m)
unfolding handle
handle-Settled k s m =
    Ensures-then _ _
      (serve-Moved k s (mbuf_resetgetattrib m) (hdr_get_type m) (hdr_get_srcid m) (hdr_get_trfid m))
      (λ t h. settle-Settled k s m t h)

-- Every step but a rejection is made by a response.
no_response :
    {mtype srcid : ℕ} {first : Option ℕ} {a b : CltState}
    → Move mtype srcid first a b
    → mclass_is_res mtype ≡ false
    → (b ≡ a) ⊎ (mtype ≡ MsgType.auth_err)
unfolding mclass_is_res mtype_get_class
no_response (stay e) h = inl e
no_response (admitted e z f p r) h = absurd (true_is_not_false (rw e at h))
no_response (challenged_ e z f p r) h = absurd (true_is_not_false (rw e at h))
no_response (authenticated e z f p r) h = absurd (true_is_not_false (rw e at h))
no_response (logged_out e z f p r) h = absurd (true_is_not_false (rw e at h))
no_response (rejected e p r) h = inr e

-- After a message, whatever its type and its contents: the state of the login has made one of its
-- steps or none. To be logged in takes a LOGIN response of the server with OK, to be challenged one
-- with CHALLENGE, to be authenticated an AUTH response and to be logged out a LOGOUT response of
-- the server with OK, each to a request of the client; an AUTH error makes a client that waits for
-- its authentication start over, whoever sent it. The settings and the connection are as before,
-- messages are only appended to the send queue, and the receive buffer is empty again.
pub process_srvmsg-Handled :
    (k : Sys) (s : Client) (m : MBuf) (t : Client)
    → process_srvmsg k s m ≡ returns t
    → Handled m s t
unfolding process_srvmsg respond
process_srvmsg-Handled k s m t e = elim (Bool-cases (mclass_is_res (hdr_get_type m))) [
  | inr other ↦
      (let h = (handle-Settled k s m).at t (rw other at e) in
        record {
          moved = h.0;
          cfg_kept = h.1;
          connected = h.2;
          sent = h.3.0;
          queued = h.3.1;
          forgotten = h.4;
          answered = elim (no_response h.0 other) [ inl e ↦ inl e | inr e ↦ inr (inl e) ];
        })
  | inl res ↦ by_match (match_pending_req m s.requests).0 refl (rw res at e)
]
  where
    returned : {a b : Client} → Path (Outcome Client) (returns a) (returns b) → a ≡ b
    returned h = cc

    by_match :
        (r : Option MBuf)
        → (match_pending_req m s.requests).0 ≡ r
        → respond k s m (match_pending_req m s.requests).0 (match_pending_req m s.requests).1
          ≡ returns t
        → Handled m s t
    by_match none f e =
        let done : record s { rbuf = none } ≡ t = returned (rw f at e) in
        subst (Handled m s) done (record {
          moved = stay refl;
          cfg_kept = refl;
          connected = refl;
          sent = [];
          queued = sym (append-nil s.queue);
          forgotten = refl;
          answered = inl refl;
        })
    by_match (some q) f e =
        let rest = (match_pending_req m s.requests).1 in
        let h = (handle-Settled k (record s { requests = rest }) m).at t (rw f at e) in
        record {
          moved = h.0;
          cfg_kept = h.1;
          connected = h.2;
          sent = h.3.0;
          queued = h.3.1;
          forgotten = h.4;
          answered = inr (inr (q, f));
        }
