-- ===== src/Server/Dispatch.antt =====
-- srvmain.c: `process_server_msg`, `process_broadcast_msg`, `process_forward_msg`, `process_msg`.
-- The result 0 or -1 is `true` or `false`.
use frelay.Common.{ℕ, suc, ◌-◌, ◌^◌, List, [], ◌∷◌, get_elem?}
use frelay.Common.{Option, none, some, Bool, true, false, ◌&&◌, ◌||◌, not, ◌==◌, if◌then◌else◌}
use frelay.Common.{Outcome, returns, ◌>>=◌}
use frelay.Status.{
  sc_forbidden, sc_bad_request, sc_not_implemented, sc_misdirected_request, sc_i_am_a_teapot,
}
use frelay.Message.MsgType
use frelay.Message.{MBuf, Env, hdr_get_type, hdr_get_dstid, hdr_set_srcid, mbuf_resetgetattrib}
use frelay.Server.{Client, Server, is_login_ok, is_auth_ok, is_open, put_client, enqueue_msg}
use frelay.Server.Requests.{
  set_rbuf, error_reply, non_null, unsupported, ping_req, register_req, drop_req, login_req,
  auth_req, logout_req, peerlist_req,
}

abbrev ok : Outcome Server → Outcome (Server × Bool)
ok m = m >>= λ s. returns (s, true)

abbrev failed : Outcome Server → Outcome (Server × Bool)
failed m = m >>= λ s. returns (s, false)

-- The `switch`, on a message rewound to its first attribute.
unfoldable pub serve : Env → Server → ℕ → Client → MBuf → Outcome (Server × Bool)
serve e s i c m =
    let mtype = hdr_get_type m in
    if mtype == MsgType.ping_ind
    then returns (set_rbuf s i c none, true)
    else if mtype == MsgType.ping_req
    then ok (ping_req e s i c m)
    else if mtype == MsgType.register_req
    then ok (register_req e s i c m)
    else if mtype == MsgType.drop_req
    then ok (drop_req e s i c m)
    else if mtype == MsgType.login_req
    then ok (login_req e s i c m)
    else if mtype == MsgType.auth_req
    then ok (auth_req e s i c m)
    else if mtype == MsgType.logout_req
    then ok (logout_req e s i c m)
    else if mtype == MsgType.peerlist_req
    then ok (peerlist_req e s i c m)
    else failed (unsupported e s i c m sc_i_am_a_teapot)

unfoldable pub process_server_msg : Env → Server → ℕ → Client → MBuf → Outcome (Server × Bool)
process_server_msg e s i c m =
    let mtype = hdr_get_type m in
    if not (is_auth_ok c.st)
      && not (mtype == MsgType.login_req)
      && not (mtype == MsgType.auth_req)
      && not (mtype == MsgType.register_req)
    then failed (error_reply e s i c m sc_forbidden)
    else serve e s i c (mbuf_resetgetattrib m)

unfoldable pub process_broadcast_msg : Env → Server → ℕ → Client → MBuf → Outcome (Server × Bool)
process_broadcast_msg e s i c m =
    if not (is_auth_ok c.st)
    then failed (error_reply e s i c m sc_forbidden)
    else failed (unsupported e s i c m sc_not_implemented)

-- The first open, authenticated client with the id.
unfoldable pub find_dst : List Client → ℕ → Option ℕ
find_dst [] id = none
find_dst (c ∷ cs) id =
    let rest = find_dst cs id in
    if is_open c && is_auth_ok c.st && id == c.id
    then some 0
    else elim rest [ none ↦ none | some i ↦ some (suc i) ]

-- The message types that are passed on to a peer.
unfoldable pub is_forwarded : ℕ → Bool
is_forwarded mtype =
    mtype == MsgType.offer_ind
    || mtype == MsgType.offer_req
    || mtype == MsgType.offer_res
    || mtype == MsgType.offer_err
    || mtype == MsgType.getfile_req
    || mtype == MsgType.getfile_res
    || mtype == MsgType.getfile_err
    || mtype == MsgType.ping_ind
    || mtype == MsgType.ping_req
    || mtype == MsgType.ping_res
    || mtype == MsgType.ping_err

-- The buffer moves from the sender to the destination's queue; the two may be one client.
unfoldable pub forward_to : Server → ℕ → Client → MBuf → ℕ → Outcome Server
forward_to s i c m i_dst = do
  let s1 = put_client s i (record c { rbuf = none })
  d ← non_null (get_elem? s1.clients i_dst)
  returns (enqueue_msg s1 i_dst d m)

unfoldable pub process_forward_msg : Env → Server → ℕ → Client → MBuf → Outcome (Server × Bool)
process_forward_msg e s i c m =
    if not (is_auth_ok c.st)
    then failed (error_reply e s i c m sc_forbidden)
    else elim (find_dst s.clients (hdr_get_dstid m)) [
      | none ↦ failed (error_reply e s i c m sc_misdirected_request)
      | some i_dst ↦
          if is_forwarded (hdr_get_type m)
          then ok (forward_to s i c m i_dst)
          else failed (unsupported e s i c m sc_bad_request)
    ]

abbrev pub broadcast_id : ℕ
broadcast_id = 2 ^ 64 - 1

-- The *real* client ID is filled in for a client that has logged in.
unfoldable pub stamp : Client → MBuf → MBuf
stamp c m = if is_login_ok c.st || is_auth_ok c.st then hdr_set_srcid m c.id else m

unfoldable pub dispatch : Env → Server → ℕ → Client → MBuf → ℕ → Outcome (Server × Bool)
dispatch e s i c m dstid =
    if dstid == 0
    then process_server_msg e s i c m
    else if dstid == broadcast_id
    then process_broadcast_msg e s i c m
    else process_forward_msg e s i c m

-- The response, if any, goes to the client's own queue.
unfoldable pub send_back : Server → ℕ → Client → Server
send_back s i c = elim c.rbuf [ none ↦ s | some m ↦ enqueue_msg s i (record c { rbuf = none }) m ]

-- `process_msg( c, i, … )` for the client `c` in slot `i` with the complete message `m`.
unfoldable pub process_msg : Env → Server → ℕ → Client → MBuf → Outcome (Server × Bool)
process_msg e s i c m = do
  let m1 = stamp c m
  (s1, r) ← dispatch e (put_client s i (record c { rbuf = some m1 })) i c m1 (hdr_get_dstid m)
  c1 ← non_null (get_elem? s1.clients i)
  returns (send_back s1 i c1, r)
