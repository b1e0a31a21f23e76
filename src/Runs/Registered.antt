-- ===== src/Runs/Registered.antt =====
-- A guest of the server of srvmain.c logs in under the name of a registered user, and gives the key.
use frelay.Common.{◌≡◌, refl, arith, ◌∷◌, ◌++◌, replicate, slice, write, get_elem?, codes}
use frelay.Common.{Bool, true, Option, none, some, Outcome, returns, dies, faults}
use frelay.Bytes.{
  get16, get32, get64, put16, put32, put64, load, store, hton16, hton32, hton64, swap2, swap4,
  swap8, of_low_bytes, low_bytes,
}
use frelay.Message.MsgType
use frelay.Message.MsgAttr
use frelay.Message.{
  MBuf, Attr, hdr_get_type, hdr_get_dstid, hdr_get_srcid, hdr_set_type, hdr_set_paylen, hdr_set_rfu,
  hdr_set_ts, hdr_set_srcid, hdr_set_dstid, mbuf_new, mbuf_resetgetattrib, mbuf_getnextattrib,
  mbuf_addattrib, mbuf_to_response, mbuf_grow, mbuf_resize, realloc, fresh, attr_head, attr_value,
  avtype_of, copy_in, mclass_to_res, string_at, c_string,
}
use frelay.Strings.{str_eq, has_prefix}
use frelay.UserDb.{User, udb_lookupname, udb_lookupname_, udb_load, find_user, udb_gettempid}
use frelay.Server.{
  Client, Server, is_auth_ok, put_client, close_client, fd_clr, fd_clr?, enqueue_msg, fd_set,
  fd_set?,
}
use frelay.Server.Requests.{
  non_null, set_rbuf, wanted_attr, ok_response, notice_response, notice_reply, login_req,
  login_name, login_found, login_registered, auth_req, auth_digest, auth_key, close_same_id,
  close_if_same, auth_key_plaintext,
}
use frelay.Server.Dispatch.{process_msg, stamp, dispatch, process_server_msg, serve, send_back}
use frelay.Server.Registered.{process_msg-login_req}
use frelay.Runs.Traffic.{env, server, guest, message, auth_msg}

abbrev login_msg : MBuf
login_msg =
    record (message MsgType.login_req 0
      (0 ∷ MsgAttr.username ∷ 0 ∷ 4 ∷ 0 ∷ 0 ∷ 0 ∷ 0 ∷ (codes "bob" ++ replicate 5 0))) { boff = 40 }

abbrev name_attr : Attr
name_attr = record { at = MsgAttr.username; al = 4; av = 48 }

abbrev bob_user : User
bob_user = record { id = 1; name = codes "bob"; key = codes "plain-text two" }

abbrev server_of : Outcome Server → Server
server_of (returns t) = t
server_of dies = server
server_of faults = server

abbrev served : Outcome (Server × Bool) → Server
served (returns (t, r)) = t
served dies = server
served faults = server

abbrev client_of : Option Client → Client
client_of none = guest
client_of (some c) = c

-- The guest has sent the name, and then, without the reply, the key.
abbrev challenged : Server
challenged = server_of (login_req env server 1 guest login_msg)

abbrev waiting : Client
waiting = client_of (get_elem? challenged.clients 1)

abbrev admitted : Server
admitted = served (process_msg env challenged 1 waiting auth_msg)

abbrev inside : Client
inside = client_of (get_elem? admitted.clients 1)

name-given :
    (wanted_attr MsgAttr.username login_msg ≡ some name_attr)
    × (string_at login_msg 48 ≡ returns (codes "bob"))
    × ((udb_lookupname server.db (codes "bob")).1 ≡ some bob_user)
    × (has_prefix bob_user.key auth_key_plaintext ≡ true)
unfolding wanted_attr mbuf_getnextattrib get16 load hton16 swap2 of_low_bytes slice string_at
    c_string udb_lookupname udb_lookupname_ udb_load find_user str_eq has_prefix
name-given = (refl, refl, refl, refl)

login-runs :
    (login_req env server 1 guest login_msg ≡ returns challenged)
    × (get_elem? challenged.clients 1 ≡ some waiting)
    × (process_msg env challenged 1 waiting auth_msg ≡ returns (admitted, true))
    × (get_elem? admitted.clients 1 ≡ some inside)
    × (is_auth_ok inside.st ≡ true)
unfolding get16 get32 get64 put16 put32 put64 load store hton16 hton32 hton64 swap2 swap4 swap8
    of_low_bytes low_bytes slice write hdr_get_type hdr_get_dstid hdr_get_srcid hdr_set_type
    hdr_set_paylen hdr_set_rfu hdr_set_ts hdr_set_srcid hdr_set_dstid mbuf_new mbuf_resetgetattrib
    mbuf_getnextattrib mbuf_addattrib mbuf_to_response mbuf_grow mbuf_resize realloc fresh attr_head
    attr_value avtype_of copy_in mclass_to_res string_at c_string str_eq udb_lookupname
    udb_lookupname_ udb_load find_user udb_gettempid put_client enqueue_msg fd_set fd_set? non_null
    set_rbuf wanted_attr ok_response notice_response notice_reply login_req login_name login_found
    login_registered has_prefix auth_req auth_digest auth_key close_same_id close_if_same
    close_client fd_clr fd_clr? process_msg stamp dispatch process_server_msg serve send_back
login-runs = (refl, refl, refl, refl, refl)

process_msg-login_req_example :
    (waiting.id ≡ 1)
    × (waiting.name ≡ some (codes "bob"))
    × (hdr_get_type (stamp waiting auth_msg) ≡ MsgType.auth_req)
    × (a : Attr) × (wanted_attr MsgAttr.digest (mbuf_resetgetattrib (stamp waiting auth_msg))
        ≡ some a)
    × (string_at (mbuf_resetgetattrib (stamp waiting auth_msg)) a.av
        ≡ returns (codes "plain-text two"))
process_msg-login_req_example =
    process_msg-login_req env server 1 guest login_msg name_attr (codes "bob") bob_user challenged
      waiting challenged waiting auth_msg true admitted inside refl name-given.0 name-given.1
      name-given.2 name-given.3 login-runs.0 login-runs.1 login-runs.1 (refl, refl)
      (record { sized = refl; least = omega arith; most = omega arith }) login-runs.2 login-runs.3
      login-runs.4
