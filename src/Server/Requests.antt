-- ===== src/Server/Requests.antt =====
-- srvmain.c, `process_server_msg`: the requests that are directed to the server, one function for
-- each `case`. `c` is the client in slot `i` and `m` its receive buffer, read up to its header.
use frelay.Common.{ℕ, zero, suc, ◌+◌, List, [], ◌∷◌, ◌++◌, length, get_elem?, codes}
use frelay.Common.{Option, none, some, Bool, false, ◌&&◌, ◌||◌, not, ◌==◌, if◌then◌else◌, is_zero}
use frelay.Common.{Outcome, returns, faults, ◌>>=◌}
use frelay.Strings.{str_eq, has_prefix, stricmp}
use frelay.Status.{
  sc_unauthorized, sc_bad_request, sc_locked, sc_not_found, sc_conflict, sc_method_not_allowed,
}
use frelay.Message.MsgAttr
use frelay.Message.{
  MBuf, Env, Attr, null, ui64, str, blob, mbuf_getnextattrib, mbuf_addattrib, string_at,
  mbuf_to_response, mbuf_to_error_response, mclass_is_req, hdr_get_type,
}
use frelay.UserDb.{User, udb_lookupname, udb_addentry, udb_dropentry, udb_gettempid, added, refused}
use frelay.Server.{
  Client, Server, clt_pre_login, clt_login_ok, clt_auth_ok, is_pre_login, is_login_ok, is_auth_ok,
  is_open, put_client, close_client,
}

abbrev pub auth_key_plaintext : List ℕ
auth_key_plaintext = codes "plain-text "

abbrev txt_registered : List ℕ
txt_registered = codes "Account created / modified."

abbrev txt_dropped : List ℕ
txt_dropped = codes "Account registration dropped."

abbrev txt_bye : List ℕ
txt_bye = codes "Bye."

-- A string function that is handed a null pointer.
unfoldable pub non_null {ℓ} : {A : Type ℓ} → Option A → Outcome A
non_null none = faults
non_null (some a) = returns a

unfoldable pub set_rbuf : Server → ℕ → Client → Option MBuf → Server
set_rbuf s i c m = put_client s i (record c { rbuf = m })

unfoldable pub error_reply : Env → Server → ℕ → Client → MBuf → ℕ → Outcome Server
error_reply e s i c m ec = do m1 ← mbuf_to_error_response e m ec; returns (set_rbuf s i c (some m1))

-- A response with an OK attribute.
unfoldable pub ok_response : Env → MBuf → Outcome MBuf
ok_response e m = do m1 ← mbuf_to_response e m; mbuf_addattrib e m1 MsgAttr.ok 0 null

-- A response with an OK and a NOTICE attribute.
unfoldable pub notice_response : Env → MBuf → List ℕ → Outcome MBuf
notice_response e m text = do
  m1 ← ok_response e m
  mbuf_addattrib e m1 MsgAttr.notice (length text + 1) (str text)

unfoldable pub notice_reply : Env → Server → ℕ → Client → MBuf → List ℕ → Outcome Server
notice_reply e s i c m text = do m1 ← notice_response e m text; returns (set_rbuf s i c (some m1))

-- `0 == mbuf_getnextattrib( … )` with an attribute of the wanted type.
unfoldable pub wanted_attr : ℕ → MBuf → Option Attr
wanted_attr attype m = elim ((mbuf_getnextattrib m).0) [
  | none ↦ none
  | some x ↦ if x.at == attype then some x else none
]

unfoldable pub ping_req : Env → Server → ℕ → Client → MBuf → Outcome Server
ping_req e s i c m = do m1 ← ok_response e m; returns (set_rbuf s i c (some m1))

unfoldable pub register_key : Env → Server → ℕ → Client → MBuf → List ℕ → Outcome Server
register_key e s i c m key = do
  name ← non_null c.name
  let db1 = (udb_dropentry s.db name).0
  let (db2, a) = udb_addentry db1 c.id (some name) (some key)
  let s1 = record s { db = db2 }
  elim a [
    | added u ↦ notice_reply e s1 i c m txt_registered
    | refused r ↦ error_reply e s1 i c m sc_locked
  ]

unfoldable pub register_req : Env → Server → ℕ → Client → MBuf → Outcome Server
register_req e s i c m =
    if not (is_auth_ok c.st)
    then error_reply e s i c m sc_unauthorized
    else elim (wanted_attr MsgAttr.pubkey m) [
      | none ↦ error_reply e s i c m sc_bad_request
      | some x ↦ string_at m x.av >>= λ av. register_key e s i c m (auth_key_plaintext ++ av)
    ]

unfoldable pub drop_req : Env → Server → ℕ → Client → MBuf → Outcome Server
drop_req e s i c m = if not (is_auth_ok c.st) then error_reply e s i c m sc_unauthorized else (do
  name ← non_null c.name
  let (db1, found) = udb_dropentry s.db name
  let s1 = record s { db = db1 }
  if found then notice_reply e s1 i c m txt_dropped else error_reply e s1 i c m sc_not_found)

-- The loop over the names of the open clients.
unfoldable pub name_in_use : List Client → List ℕ → Bool
name_in_use [] av = false
name_in_use (c ∷ cs) av =
    (is_open c && elim c.name [ none ↦ false | some n ↦ is_zero (stricmp n av) ])
    || name_in_use cs av

unfoldable pub login_unregistered : Env → Server → ℕ → Client → MBuf → List ℕ → Outcome Server
login_unregistered e s i c m av =
    if name_in_use s.clients av
    then error_reply e s i c m sc_conflict
    else (let (db1, tempid) = udb_gettempid s.db in
        let c1 = record c { st = clt_auth_ok; id = tempid; name = some av; key = none } in
        notice_reply e (record s { db = db1 }) i c1 m s.motd)

unfoldable pub login_registered : Env → Server → ℕ → Client → MBuf → User → Outcome Server
login_registered e s i c m pu =
    let c1 = record c { st = clt_login_ok; id = pu.id; name = some pu.name } in
    if has_prefix pu.key auth_key_plaintext
    then (do
      m1 ← mbuf_to_response e m
      m2 ←
          mbuf_addattrib e m1 MsgAttr.challenge (length auth_key_plaintext + 1)
            (blob (auth_key_plaintext ++ 0 ∷ []))
      returns (set_rbuf s i (record c1 { key = some pu.key }) (some m2)))
    else error_reply e s i c1 m sc_method_not_allowed

unfoldable pub login_found :
    Env → Server → ℕ → Client → MBuf → List ℕ → Option User → Outcome Server
login_found e s i c m av none = login_unregistered e s i c m av
login_found e s i c m av (some u) = login_registered e s i c m u

unfoldable pub login_name : Env → Server → ℕ → Client → MBuf → List ℕ → Outcome Server
login_name e s i c m av =
    let (db1, pu) = udb_lookupname s.db av in login_found e (record s { db = db1 }) i c m av pu

unfoldable pub login_req : Env → Server → ℕ → Client → MBuf → Outcome Server
login_req e s i c m =
    if not (is_pre_login c.st)
    then error_reply e s i c m sc_bad_request
    else elim (wanted_attr MsgAttr.username m) [
      | none ↦ error_reply e s i c m sc_bad_request
      | some x ↦ string_at m x.av >>= login_name e s i c m
    ]

-- One round of the loop that closes the other open clients with the id of `c[i]`.
unfoldable pub close_if_same : Server → ℕ → ℕ → ℕ → Option Client → Server
close_if_same s i id j none = s
close_if_same s i id j (some d) =
    if id == d.id && not (i == j) && is_open d then close_client s j d else s

-- `k` slots are left, from `j` on.
unfoldable pub close_same_id : ℕ → ℕ → Server → ℕ → ℕ → Server
close_same_id zero j s i id = s
close_same_id (suc k) j s i id =
    close_same_id k (j + 1) (close_if_same s i id j (get_elem? s.clients j)) i id

-- The client is the one that stands in slot `i` after the loop.
unfoldable pub auth_key : Env → Server → ℕ → Client → MBuf → List ℕ → List ℕ → Outcome Server
auth_key e s i c m av key =
    if not (str_eq av key)
    then error_reply e s i (record c { st = clt_pre_login }) m sc_unauthorized
    else (do
      let s1 = close_same_id (length s.clients) 0 s i c.id
      c1 ← non_null (get_elem? s1.clients i)
      notice_reply e s1 i (record c1 { st = clt_auth_ok }) m s.motd)

unfoldable pub auth_digest : Env → Server → ℕ → Client → MBuf → List ℕ → Outcome Server
auth_digest e s i c m av = non_null c.key >>= auth_key e s i c m av

unfoldable pub auth_req : Env → Server → ℕ → Client → MBuf → Outcome Server
auth_req e s i c m =
    let refuse = error_reply e s i (record c { st = clt_pre_login }) m sc_bad_request in
    if not (is_login_ok c.st) then refuse else elim (wanted_attr MsgAttr.digest m) [
      | none ↦ refuse
      | some x ↦ string_at m x.av >>= auth_digest e s i c m
    ]

unfoldable pub logout_req : Env → Server → ℕ → Client → MBuf → Outcome Server
logout_req e s i c m =
    if not (is_auth_ok c.st) && not (is_login_ok c.st)
    then error_reply e s i c m sc_unauthorized
    else (let c1 = record c { st = clt_pre_login; id = 0; name = none; key = none } in
        notice_reply e s i c1 m txt_bye)

unfoldable pub peer_attrs : Env → List Client → MBuf → Outcome MBuf
peer_attrs e [] m = returns m
peer_attrs e (c ∷ cs) m =
    let skip = peer_attrs e cs m in
    if is_open c && is_auth_ok c.st
    then (do
      m1 ← mbuf_addattrib e m MsgAttr.peerid 8 (ui64 c.id)
      name ← non_null c.name
      m2 ← mbuf_addattrib e m1 MsgAttr.peername (length name + 1) (str name)
      peer_attrs e cs m2)
    else skip

unfoldable pub peerlist_req : Env → Server → ℕ → Client → MBuf → Outcome Server
peerlist_req e s i c m = do
  m1 ← mbuf_to_response e m
  m2 ← peer_attrs e s.clients m1
  returns (set_rbuf s i c (some m2))

-- The `default` case of each dispatcher: requests are refused, anything else is dropped.
unfoldable pub unsupported : Env → Server → ℕ → Client → MBuf → ℕ → Outcome Server
unsupported e s i c m ec =
    if mclass_is_req (hdr_get_type m)
    then error_reply e s i c m ec
    else returns (set_rbuf s i c none)
