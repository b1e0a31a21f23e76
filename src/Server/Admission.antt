-- ===== src/Server/Admission.antt =====
-- srvmain.c: how a client becomes authenticated, by an unregistered name or by its key.
use frelay.Common.{ℕ, zero, suc, ◌≡◌, refl, sym, ap, ◌∙◌, arith}
use frelay.Common.{List, [], ◌∷◌, get_elem?, set}
use frelay.Common.{Bool, true, false, ◌==◌, Bool-cases, Option-cases, ◌⊎◌, inl, inr}
use frelay.Common.{
  Option, none, some, Outcome, returns, dies, faults, ◌>>=◌, >>=-eq-returns, get_elem?-set_inv,
}
use frelay.Message.{MBuf, Env, hdr_get_type, hdr_get_dstid}
use frelay.Message.Buffer.{IsWf}
use frelay.Server.{Client, Server, is_auth_ok, is_login_ok, put_client, enqueue_msg}
use frelay.Server.Requests.{non_null, wanted_attr, name_in_use, login_req, auth_req, register_req}
use frelay.Server.Dispatch.{process_server_msg, dispatch, stamp, send_back, process_msg}
use frelay.Message.{Attr, string_at, mbuf_resetgetattrib}
use frelay.Message.MsgAttr
use frelay.Message.MsgType
use frelay.Strings.{str_eq}
use frelay.UserDb.{udb_lookupname}
use frelay.Server.{is_pre_login}
use frelay.Server.Dispatch.{serve}
use frelay.Server.Access.{needs_login, dispatch-forbidden}
use frelay.Server.Stamp.{stamp-addressed}
use frelay.Server.Inversion.{
  error_reply-st, clash, non_null-some, login_req-admits, auth_req-admits,
}

-- The client gave a name that nobody has registered and no connected client uses.
pub record ByName (s : Server) (c : Client) (m : MBuf) : Type 0 where
  pub before : is_pre_login c.st ≡ true
  asked : hdr_get_type m ≡ MsgType.login_req
  pub at : Attr
  pub name : List ℕ
  given :
      (wanted_attr MsgAttr.username (mbuf_resetgetattrib m) ≡ some at)
      × (string_at (mbuf_resetgetattrib m) at.av ≡ returns name)
  unregistered : (udb_lookupname s.db name).1 ≡ none
  pub unused : name_in_use s.clients name ≡ false

-- The client waits for its authentication, and gave the key that is kept with it.
pub record ByKey (c : Client) (m : MBuf) : Type 0 where
  pub before : is_login_ok c.st ≡ true
  pub asked : hdr_get_type m ≡ MsgType.auth_req
  pub at : Attr
  pub digest : List ℕ
  pub key : List ℕ
  pub given :
      (wanted_attr MsgAttr.digest (mbuf_resetgetattrib m) ≡ some at)
      × (string_at (mbuf_resetgetattrib m) at.av ≡ returns digest)
  pub kept : c.key ≡ some key
  pub matching : str_eq digest key ≡ true

send_back-st :
    (u : Server) (i : ℕ) (c1 : Client) {x : Client}
    → get_elem? u.clients i ≡ some c1
    → get_elem? (send_back u i c1).clients i ≡ some x
    → x.st ≡ c1.st
unfolding send_back enqueue_msg
send_back-st u i c1 hu hx = elim (Option-cases c1.rbuf) [
  | inl idle ↦ ap (λ o. elim o [ none ↦ c1.st | some y ↦ y.st ]) (sym (rw idle at hx) ∙ hu)
  | inr (r, full) ↦ ap (λ y. y.st) (get_elem?-set_inv u.clients i _ (rw full at hx))
]

process_msg-inv :
    (e : Env) (s : Server) (i : ℕ) (c : Client) (m : MBuf) (b : Bool) {t : Server} {x : Client}
    → process_msg e s i c m ≡ returns (t, b)
    → get_elem? t.clients i ≡ some x
    → (u : Server) × (y : Client) × (dispatch e
          (put_client s i (record c { rbuf = some (stamp c m) }))
          i
          c
          (stamp c m)
          (hdr_get_dstid m)
        ≡ returns (u, b))
      × (get_elem? u.clients i ≡ some y)
      × (x.st ≡ y.st)
unfolding process_msg
process_msg-inv e s i c m b {t} h hx =
    let (ub, ed, h1) = >>=-eq-returns (dispatch e _ i c (stamp c m) (hdr_get_dstid m)) _ h in
    let (y, ey, h2) = >>=-eq-returns (non_null (get_elem? ub.0.clients i)) _ h1 in
    let ey' = non_null-some _ ey in
    let et : send_back ub.0 i y ≡ t = cc in
    let eb : ub.1 ≡ b = cc in
    (
      ub.0,
      y,
      ed ∙ ap (λ r. returns (ub.0, r)) eb,
      ey',
      send_back-st ub.0 i y ey' (ap (λ v. get_elem? v.clients i) et ∙ hx),
    )

name_in_use-set :
    (cs : List Client) (i : ℕ) (c : Client) (r : Option MBuf) (av : List ℕ)
    → get_elem? cs i ≡ some c
    → name_in_use (set cs i (record c { rbuf = r })) av ≡ name_in_use cs av
unfolding name_in_use
name_in_use-set [] i c r av h = refl
name_in_use-set (y ∷ cs) zero c r av h = let same : y ≡ c = cc in rw same refl
name_in_use-set (y ∷ cs) (suc i) c r av h = rw (name_in_use-set cs i c r av h) refl

reset-type : (m : MBuf) → hdr_get_type (mbuf_resetgetattrib m) ≡ hdr_get_type m
unfolding mbuf_resetgetattrib hdr_get_type
reset-type m = refl

module _ (e : Env) (s : Server) (i : ℕ) (c : Client) (m : MBuf) where
  serve-login :
      hdr_get_type m ≡ MsgType.login_req
      → serve e s i c m ≡ (login_req e s i c m >>= λ u. returns (u, true))
  unfolding serve
  serve-login h = rw h refl

  serve-auth :
      hdr_get_type m ≡ MsgType.auth_req
      → serve e s i c m ≡ (auth_req e s i c m >>= λ u. returns (u, true))
  unfolding serve
  serve-auth h = rw h refl

  serve-register :
      hdr_get_type m ≡ MsgType.register_req
      → serve e s i c m ≡ (register_req e s i c m >>= λ u. returns (u, true))
  unfolding serve
  serve-register h = rw h refl

returned-by :
    (o : Outcome Server) (r : Bool) {t : Server} {b : Bool}
    → ◌>>=◌ {B = Server × Bool} o (λ u. returns (u, r)) ≡ returns (t, b)
    → o ≡ returns t
returned-by (returns u) r h = cc
returned-by dies r h = cc
returned-by faults r h = cc

-- A served message that leaves its sender authenticated.
module _ (e : Env) (s : Server) (i : ℕ) (c : Client) (m : MBuf) (b : Bool) {t : Server} {x : Client}
    (out : is_auth_ok c.st ≡ false) where
  login_admits :
      hdr_get_type m ≡ MsgType.login_req
      → serve e s i c (mbuf_resetgetattrib m) ≡ returns (t, b)
      → get_elem? t.clients i ≡ some x
      → is_auth_ok x.st ≡ true
      → ByName s c m
  login_admits ty h hx auth =
      let r = mbuf_resetgetattrib m in
      let (pre, a, av, ea, eav, nobody, unused) =
        login_req-admits e s i c r out
          (returned-by _ true (sym (serve-login e s i c r (reset-type m ∙ ty)) ∙ h)) hx auth in
      record {
        before = pre;
        asked = ty;
        at = a;
        name = av;
        given = (ea, eav);
        unregistered = nobody;
        unused = unused;
      }

  auth_admits :
      hdr_get_type m ≡ MsgType.auth_req
      → serve e s i c (mbuf_resetgetattrib m) ≡ returns (t, b)
      → get_elem? t.clients i ≡ some x
      → is_auth_ok x.st ≡ true
      → ByKey c m
  auth_admits ty h hx auth =
      let r = mbuf_resetgetattrib m in
      let (log, a, av, key, ea, eav, kept, same) =
        auth_req-admits e s i c r out
          (returned-by _ true (sym (serve-auth e s i c r (reset-type m ∙ ty)) ∙ h)) hx auth in
      record {
        before = log;
        asked = ty;
        at = a;
        digest = av;
        key = key;
        given = (ea, eav);
        kept = kept;
        matching = same;
      }

  register_refused :
      hdr_get_type m ≡ MsgType.register_req
      → serve e s i c (mbuf_resetgetattrib m) ≡ returns (t, b)
      → get_elem? t.clients i ≡ some x
      → x.st ≡ c.st
  unfolding register_req
  register_refused ty h hx =
      let r = mbuf_resetgetattrib m in
      error_reply-st e s i c r _
        (rw out at (
          returned-by (register_req e s i c r) true
            (sym (serve-register e s i c r (reset-type m ∙ ty)) ∙ h)))
        hx

  serve-admits :
      needs_login 0 (hdr_get_type m) ≡ false
      → serve e s i c (mbuf_resetgetattrib m) ≡ returns (t, b)
      → get_elem? t.clients i ≡ some x
      → is_auth_ok x.st ≡ true
      → ByName s c m ⊎ ByKey c m
  serve-admits allowed h hx auth = elim (Bool-cases (hdr_get_type m == MsgType.login_req)) [
    | inl login ↦ inl (login_admits (ground arith) h hx auth)
    | inr no_login ↦ elim (Bool-cases (hdr_get_type m == MsgType.auth_req)) [
      | inl asks ↦ inr (auth_admits (ground arith) h hx auth)
      | inr no_auth ↦
          clash x.st c.st
            (register_refused (ground (arith, rw (no_login, no_auth) at allowed)) h hx) auth out
    ]
  ]

dispatch-allowed :
    (e : Env) (s : Server) (i : ℕ) (c : Client) (m : MBuf) (id : ℕ)
    → needs_login id (hdr_get_type m) ≡ false
    → (dispatch e s i c m id ≡ serve e s i c (mbuf_resetgetattrib m))
      × (needs_login 0 (hdr_get_type m) ≡ false)
unfolding dispatch process_server_msg
dispatch-allowed e s i c m id allowed = elim (Bool-cases (id == 0)) [
  | inl server ↦
      (let inside = rw server at allowed in
        (
          elim (Bool-cases (is_auth_ok c.st)) [
            | inl auth ↦ rw (server, auth) refl
            | inr out ↦ rw (server, out, inside) refl
          ],
          inside,
        ))
  | inr peer ↦ absurd (grind arith)
]

ByName-put :
    (s : Server) (i : ℕ) (c : Client) (r : Option MBuf) (m : MBuf)
    → get_elem? s.clients i ≡ some c
    → ByName (put_client s i (record c { rbuf = r })) c m
    → ByName s c m
unfolding put_client
ByName-put s i c r m hi n = record {
  before = n.before;
  asked = n.asked;
  at = n.at;
  name = n.name;
  given = n.given;
  unregistered = n.unregistered;
  unused = sym (name_in_use-set s.clients i c r n.name hi) ∙ n.unused;
}

-- A client that is not authenticated, and is after its message was processed, either asked to log
-- in under a name that is not registered and not in use, or was waiting for its authentication and
-- now gave exactly the key that is kept with its slot. No other message admits it.
pub process_msg-admits :
    (e : Env) (s : Server) (i : ℕ) (c : Client) (m : MBuf) (b : Bool) (t : Server) (x : Client)
    → get_elem? s.clients i ≡ some c
    → is_auth_ok c.st ≡ false
    → IsWf m
    → process_msg e s i c m ≡ returns (t, b)
    → get_elem? t.clients i ≡ some x
    → is_auth_ok x.st ≡ true
    → ByName s c (stamp c m) ⊎ ByKey c (stamp c m)
process_msg-admits e s i c m b t x hi out w h hx auth =
    let (u, y, hd, hy, st) = process_msg-inv e s i c m b h hx in
    let auth1 = ap is_auth_ok (sym st) ∙ auth in
    let (ty, dst) = stamp-addressed c m w in
    elim (Bool-cases (needs_login (hdr_get_dstid m) (hdr_get_type m))) [
      | inl need ↦
          clash y.st c.st
            (error_reply-st e _ i c (stamp c m) _
              (returned-by _ false (
                sym (
                  dispatch-forbidden e _ i c (stamp c m) (hdr_get_dstid m) out
                    (ap (needs_login (hdr_get_dstid m)) ty ∙ need))
                ∙ hd))
              hy)
            auth1 out
      | inr allowed ↦
          (let (ed, inside) =
              dispatch-allowed e _ i c (stamp c m) (hdr_get_dstid m)
                (ap (needs_login (hdr_get_dstid m)) ty ∙ allowed) in
            elim (serve-admits e _ i c (stamp c m) b out inside (sym ed ∙ hd) hy auth1) [
              | inl n ↦ inl (ByName-put s i c (some (stamp c m)) (stamp c m) hi n)
              | inr k ↦ inr k
            ])
    ]
