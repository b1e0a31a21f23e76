-- ===== src/Runs/Login.antt =====
-- A guest logs in to the server of srvmain.c, run from the request to the queued reply.
use frelay.Common.{◌≡◌, ◌⊎◌, refl, arith, ◌∷◌, ◌++◌, replicate, slice, write, get_elem?, codes}
use frelay.Common.{Bool, true, Option, none, some, Outcome, returns, dies, faults}
use frelay.Bytes.{
  get16, get32, get64, put16, put32, put64, load, store, hton16, hton32, hton64, swap2, swap4,
  swap8, of_low_bytes, low_bytes,
}
use frelay.Message.MsgType
use frelay.Message.MsgAttr
use frelay.Message.{
  MBuf, hdr_get_type, hdr_get_dstid, hdr_get_srcid, hdr_set_type, hdr_set_paylen, hdr_set_rfu,
  hdr_set_ts, hdr_set_srcid, hdr_set_dstid, mbuf_new, mbuf_resetgetattrib, mbuf_getnextattrib,
  mbuf_addattrib, mbuf_to_response, mbuf_grow, mbuf_resize, realloc, fresh, attr_head, attr_value,
  avtype_of, copy_in, mclass_to_res, string_at, c_string,
}
use frelay.Strings.{str_eq, stricmp, tolower}
use frelay.UserDb.{udb_lookupname, udb_lookupname_, udb_load, find_user, udb_gettempid}
use frelay.Server.{Client, Server, is_auth_ok, put_client, enqueue_msg, fd_set, fd_set?}
use frelay.Server.Requests.{
  non_null, set_rbuf, wanted_attr, ok_response, notice_response, notice_reply, name_in_use,
  login_req, login_name, login_found, login_unregistered,
}
use frelay.Server.Dispatch.{process_msg, stamp, dispatch, process_server_msg, serve, send_back}
use frelay.Server.Admission.{ByName, ByKey, process_msg-admits}
use frelay.Runs.Traffic.{env, server, guest, message}

abbrev login_msg : MBuf
login_msg =
    message MsgType.login_req 0
      (0 ∷ MsgAttr.username ∷ 0 ∷ 4 ∷ 0 ∷ 0 ∷ 0 ∷ 0 ∷ (codes "eve" ++ replicate 5 0))

-- The server, and the client in a slot, after a run.
abbrev server_of : Outcome (Server × Bool) → Server
server_of (returns (t, r)) = t
server_of dies = server
server_of faults = server

abbrev client_of : Option Client → Client
client_of none = guest
client_of (some c) = c

abbrev after : Server
after = server_of (process_msg env server 1 guest login_msg)

abbrev eve : Client
eve = client_of (get_elem? after.clients 1)

-- The reply waits in the queue, and the guest is authenticated.
login-runs :
    (process_msg env server 1 guest login_msg ≡ returns (after, true))
    × (get_elem? after.clients 1 ≡ some eve)
    × (is_auth_ok eve.st ≡ true)
unfolding get16 get32 get64 put16 put32 put64 load store hton16 hton32 hton64 swap2 swap4 swap8
    of_low_bytes low_bytes slice write hdr_get_type hdr_get_dstid hdr_get_srcid hdr_set_type
    hdr_set_paylen hdr_set_rfu hdr_set_ts hdr_set_srcid hdr_set_dstid mbuf_new mbuf_resetgetattrib
    mbuf_getnextattrib mbuf_addattrib mbuf_to_response mbuf_grow mbuf_resize realloc fresh attr_head
    attr_value avtype_of copy_in mclass_to_res string_at c_string str_eq udb_lookupname
    udb_lookupname_ udb_load find_user udb_gettempid put_client enqueue_msg fd_set fd_set? non_null
    set_rbuf wanted_attr ok_response notice_response notice_reply name_in_use login_req login_name
    login_found login_unregistered process_msg stamp dispatch process_server_msg serve send_back
    stricmp tolower
login-runs = (refl, refl, refl)

process_msg-admits_example :
    ByName server guest (stamp guest login_msg) ⊎ ByKey guest (stamp guest login_msg)
process_msg-admits_example =
    process_msg-admits env server 1 guest login_msg true after eve refl refl
      (record { sized = refl; least = omega arith; most = omega arith }) login-runs.0 login-runs.1
      login-runs.2
