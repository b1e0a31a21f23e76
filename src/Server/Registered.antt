-- ===== src/Server/Registered.antt =====
-- srvmain.c, LOGIN_REQ and AUTH_REQ: what it takes to become authenticated as a registered user.
use frelay.Common.{ℕ, ◌≡◌, sym, ap, ◌∙◌, List, ◌++◌, ◌∷◌, [], length, get_elem?}
use frelay.Common.{
  Bool, Option, ◌+◌, true_is_not_false, true, some, inl, inr, Outcome, returns, dies, faults,
}
use frelay.Common.{◌>>=◌, >>=-eq-returns, get_elem?-set_inv}
use frelay.Message.{MBuf, Env, Attr, string_at, blob, mbuf_to_response, mbuf_addattrib}
use frelay.Message.{hdr_get_type, mbuf_resetgetattrib}
use frelay.Message.MsgAttr
use frelay.Message.MsgType
use frelay.Message.Buffer.{IsWf}
use frelay.Strings.{has_prefix}
use frelay.Strings.Compare.{str_eq_sound}
use frelay.UserDb.{User, udb_lookupname}
use frelay.Server.{Client, Server, clt_login_ok, is_pre_login, is_auth_ok, put_client}
use frelay.Server.Requests.{
  wanted_attr, login_req, login_name, login_found, login_registered, set_rbuf, auth_key_plaintext,
}
use frelay.Server.Dispatch.{stamp, process_msg}
use frelay.Server.Admission.{process_msg-admits}

-- What the login of a registered user leaves in its slot.
pub record LoggedIn (c : Client) (u : User) : Type 0 where
  pub st : c.st ≡ clt_login_ok
  pub id : c.id ≡ u.id
  pub name : c.name ≡ some u.name
  pub key : c.key ≡ some u.key

replied :
    {t : Server} {x : Client} (s : Server) (i : ℕ) (c : Client) (o : Outcome MBuf)
    → (o >>= λ r. returns (set_rbuf s i c (some r))) ≡ returns t
    → get_elem? t.clients i ≡ some x
    → (r : MBuf) × (x ≡ record c { rbuf = some r })
unfolding set_rbuf put_client
replied {t} s i c (returns r) h hx =
    let e : set_rbuf s i c (some r) ≡ t = cc in
    (
      r,
      get_elem?-set_inv s.clients i (record c { rbuf = some r })
          (ap (λ u. get_elem? u.clients i) e ∙ hx),
    )
replied s i c dies h hx = cc
replied s i c faults h hx = cc

login_registered-LoggedIn :
    (e : Env) (s : Server) (i : ℕ) (c : Client) (m : MBuf) (u : User) {t : Server} {x : Client}
    → has_prefix u.key auth_key_plaintext ≡ true
    → login_registered e s i c m u ≡ returns t
    → get_elem? t.clients i ≡ some x
    → LoggedIn x u
unfolding login_registered
login_registered-LoggedIn e s i c m u {t} {x} plain h hx =
    let h0 : (mbuf_to_response e m >>= λ m1.
    challenge m1 >>= λ m2. returns (set_rbuf s i c2 (some m2)))
        ≡ returns t =
      rw plain at h in
    let (m1, e1, h1) = >>=-eq-returns (mbuf_to_response e m) _ h0 in
    let (r, same) = replied s i c2 (challenge m1) h1 hx in
    record {
      st = ap (λ y. y.st) same;
      id = ap (λ y. y.id) same;
      name = ap (λ y. y.name) same;
      key = ap (λ y. y.key) same;
    }
  where
    c2 : Client
    c2 = record c { st = clt_login_ok; id = u.id; name = some u.name; key = some u.key }

    challenge : MBuf → Outcome MBuf
    challenge m1 =
        mbuf_addattrib e m1 MsgAttr.challenge (length auth_key_plaintext + 1)
          (blob (auth_key_plaintext ++ 0 ∷ []))

login_req-LoggedIn :
    (e : Env) (s : Server) (i : ℕ) (c : Client) (m : MBuf) (a : Attr) (name : List ℕ) (u : User)
    {t : Server} {x : Client}
    → is_pre_login c.st ≡ true
    → wanted_attr MsgAttr.username m ≡ some a
    → string_at m a.av ≡ returns name
    → (udb_lookupname s.db name).1 ≡ some u
    → has_prefix u.key auth_key_plaintext ≡ true
    → login_req e s i c m ≡ returns t
    → get_elem? t.clients i ≡ some x
    → LoggedIn x u
unfolding login_req login_name login_found
login_req-LoggedIn e s i c m a name u pre ea en found plain h hx =
    login_registered-LoggedIn e _ i c m u plain (rw (pre, ea, en, found) at h) hx

-- A client asks to log in under the name of a registered user whose key can be asked for. The login
-- leaves it with the id and the name of that user. Whatever happens on the server afterwards, as
-- long as the client keeps the state and the key that the login left it with, it becomes
-- authenticated by one message only: an AUTH request whose first attribute is a digest with exactly
-- the key that the database held for that user at the login.
pub process_msg-login_req :
    (e : Env) (s0 : Server) (i : ℕ) (c0 : Client) (m0 : MBuf) (a0 : Attr) (name : List ℕ) (u : User)
    (t0 : Server) (c1 : Client) (s : Server) (c : Client) (m : MBuf) (b : Bool) (t : Server)
    (x : Client)
    → is_pre_login c0.st ≡ true
    → wanted_attr MsgAttr.username m0 ≡ some a0
    → string_at m0 a0.av ≡ returns name
    → (udb_lookupname s0.db name).1 ≡ some u
    → has_prefix u.key auth_key_plaintext ≡ true
    → login_req e s0 i c0 m0 ≡ returns t0
    → get_elem? t0.clients i ≡ some c1
    → get_elem? s.clients i ≡ some c
    → (c.st ≡ c1.st) × (c.key ≡ c1.key)
    → IsWf m
    → process_msg e s i c m ≡ returns (t, b)
    → get_elem? t.clients i ≡ some x
    → is_auth_ok x.st ≡ true
    → (c1.id ≡ u.id)
      × (c1.name ≡ some u.name)
      × (hdr_get_type (stamp c m) ≡ MsgType.auth_req)
      × (a : Attr) × (wanted_attr MsgAttr.digest (mbuf_resetgetattrib (stamp c m)) ≡ some a)
      × (string_at (mbuf_resetgetattrib (stamp c m)) a.av ≡ returns u.key)
process_msg-login_req e s0 i c0 m0 a0 name u t0 c1 s c m b t x pre ea en found plain login h1 hi
      (same_st, same_key) w run hx auth =
    let l = login_req-LoggedIn e s0 i c0 m0 a0 name u pre ea en found plain login h1 in
    let st : c.st ≡ clt_login_ok = same_st ∙ l.st in
    elim (process_msg-admits e s i c m b t x hi (ap is_auth_ok st) w run hx auth) [
      | inl n ↦ absurd (true_is_not_false (sym n.before ∙ ap is_pre_login st))
      | inr k ↦
          (let same : k.digest ≡ u.key =
              str_eq_sound k.digest k.key k.matching
              ∙ some_injective (sym k.kept ∙ same_key ∙ l.key) in
            (l.id, l.name, k.asked, k.at, k.given.0, k.given.1 ∙ ap (λ d. returns d) same))
    ]
  where
    some_injective : {a b : List ℕ} → Path (Option (List ℕ)) (some a) (some b) → a ≡ b
    some_injective h = cc
