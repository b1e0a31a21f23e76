-- ===== src/Client/Dispatch.antt =====
-- cltmain.c, `process_srvmsg`: a message from the server.
use frelay.Common.{ℕ, List, Option, none, some, ◌||◌, ◌==◌}
use frelay.Common.{if◌then◌else◌, if_some, Outcome, returns, ◌>>=◌}
use frelay.Message.MsgType
use frelay.Message.MsgAttr
use frelay.Message.{
  MBuf, hdr_get_type, hdr_get_srcid, hdr_get_trfid, mclass_is_res, mclass_is_err,
  mbuf_resetgetattrib, mbuf_to_error_response,
}
use frelay.Status.{sc_ok}
use frelay.Client.{
  Client, Sys, shown, lerr, serr, clt_pre_login, is_login_ok, note, printcon, enqueue_msg,
  match_pending_req,
}
use frelay.Client.Attributes.{Turn, quiet, wanted, after, word_at, notice_text}
use frelay.Client.Peers.{ping, offer_req, getfile_req}
use frelay.Client.Replies.{
  ping_res, offer_res, getfile_res, peerlist_res, registered, login_res, auth_res, logout_res,
}

-- The case `default`.
unfoldable pub other : Client → MBuf → ℕ → Outcome Turn
other s m mtype =
    let unhandled = quiet (printcon lerr s) in
    if mclass_is_err mtype
    then if_some (wanted MsgAttr.error m) unhandled
        (λ x. (do ec ← word_at m x.av; es ← notice_text (after m); quiet (note (shown serr es) s)))
    else unhandled

unfoldable pub auth_err : Client → MBuf → ℕ → Outcome Turn
auth_err s m mtype = other (if is_login_ok s.st then record s { st = clt_pre_login } else s) m mtype

-- The `switch`, on a message rewound to its first attribute.
unfoldable pub serve : Sys → Client → MBuf → ℕ → ℕ → ℕ → Outcome Turn
serve k s m mtype srcid trfid =
    if mtype == MsgType.ping_req || mtype == MsgType.ping_ind
    then ping k s m mtype srcid trfid
    else if mtype == MsgType.offer_req
    then offer_req k s m srcid trfid
    else if mtype == MsgType.getfile_req
    then getfile_req k s m srcid trfid
    else if mtype == MsgType.ping_res
    then ping_res s m
    else if mtype == MsgType.offer_res
    then offer_res k s m srcid
    else if mtype == MsgType.getfile_res
    then getfile_res k s m srcid
    else if mtype == MsgType.peerlist_res
    then peerlist_res s m srcid
    else if mtype == MsgType.register_res || mtype == MsgType.drop_res
    then registered s m srcid
    else if mtype == MsgType.login_res
    then login_res k s m srcid trfid
    else if mtype == MsgType.auth_res
    then auth_res s m srcid
    else if mtype == MsgType.logout_res
    then logout_res s m srcid
    else if mtype == MsgType.auth_err
    then auth_err s m mtype
    else other s m mtype

-- Behind the label `DONE`: an error response, made of the message itself, or the answer is queued.
unfoldable pub settle : Sys → MBuf → Turn → Outcome Client
settle k m t =
    let s = record t.client { rbuf = none } in
    if t.status == sc_ok
    then if_some t.mp (returns s) (λ mp. returns (enqueue_msg s mp))
    else (do r ← mbuf_to_error_response k.env m t.status; returns (enqueue_msg s r))

unfoldable pub handle : Sys → Client → MBuf → Outcome Client
handle k s m =
    serve k s (mbuf_resetgetattrib m) (hdr_get_type m) (hdr_get_srcid m) (hdr_get_trfid m)
    >>= settle k m

-- A response that no request waits for is dropped.
unfoldable pub respond : Sys → Client → MBuf → Option MBuf → List MBuf → Outcome Client
respond k s m none rest = returns (record s { rbuf = none })
respond k s m (some q) rest = handle k (record s { requests = rest }) m

unfoldable pub process_srvmsg : Sys → Client → MBuf → Outcome Client
process_srvmsg k s m =
    if mclass_is_res (hdr_get_type m)
    then (let (r, rest) = match_pending_req m s.requests in respond k s m r rest)
    else handle k s m
