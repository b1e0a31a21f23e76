-- ===== src/Server/Inversion.antt =====
-- srvmain.c: what a LOGIN or AUTH request must have held for its handler to admit the sender.
use frelay.Common.{ℕ, ◌+◌, ◌≡◌, refl, ap, ◌∙◌}
use frelay.Common.{List, [], ◌∷◌, ◌++◌, length, get_elem?}
use frelay.Common.{true, false, Bool-cases, Option-cases, inl, inr}
use frelay.Common.{
  Option, none, some, Outcome, returns, dies, faults, ◌>>=◌, >>=-eq-returns, get_elem?-set_inv,
}
use frelay.Message.{MBuf, Env}
use frelay.Server.{
  Client, Server, CltState, clt_login_ok, clt_pre_login, is_auth_ok, is_login_ok, put_client,
}
use frelay.Server.Requests.{
  non_null, set_rbuf, error_reply, notice_reply, wanted_attr, name_in_use, login_unregistered,
  login_registered, login_found, login_name, login_req, auth_key, auth_digest, auth_req,
  auth_key_plaintext,
}
use frelay.Message.{Attr, string_at, mbuf_addattrib, mbuf_to_response, blob}
use frelay.Message.MsgAttr
use frelay.Strings.{str_eq, has_prefix}
use frelay.UserDb.{User, udb_lookupname}
use frelay.Server.{is_pre_login}

-- A handler that leaves a reply in the buffer of `c` leaves the state of `c`.
reply-st :
    {t : Server} {x : Client} (s : Server) (i : ℕ) (c : Client) (o : Outcome MBuf)
    → (o >>= λ r. returns (set_rbuf s i c (some r))) ≡ returns t
    → get_elem? t.clients i ≡ some x
    → x.st ≡ c.st
unfolding set_rbuf put_client
reply-st {t} s i c (returns r) h hx =
    let e : set_rbuf s i c (some r) ≡ t = cc in
    ap (λ y. y.st)
      (get_elem?-set_inv s.clients i (record c { rbuf = some r })
        (ap (λ u. get_elem? u.clients i) e ∙ hx))
reply-st s i c dies h hx = cc
reply-st s i c faults h hx = cc

pub error_reply-st :
    (e : Env) (s : Server) (i : ℕ) (c : Client) (m : MBuf) (ec : ℕ) {t : Server} {x : Client}
    → error_reply e s i c m ec ≡ returns t
    → get_elem? t.clients i ≡ some x
    → x.st ≡ c.st
unfolding error_reply
error_reply-st e s i c m ec h hx = reply-st s i c _ h hx

notice_reply-st :
    (e : Env) (s : Server) (i : ℕ) (c : Client) (m : MBuf) (text : List ℕ) {t : Server} {x : Client}
    → notice_reply e s i c m text ≡ returns t
    → get_elem? t.clients i ≡ some x
    → x.st ≡ c.st
unfolding notice_reply
notice_reply-st e s i c m text h hx = reply-st s i c _ h hx

-- A client in a state that is not authenticated does not have one that is.
pub clash {ℓ} :
    {P : Type ℓ} (x c : CltState) → x ≡ c → is_auth_ok x ≡ true → is_auth_ok c ≡ false → P
clash x c e y n = absurd (cc)

login_registered-st :
    (e : Env) (s : Server) (i : ℕ) (c : Client) (m : MBuf) (u : User) {t : Server} {x : Client}
    → login_registered e s i c m u ≡ returns t
    → get_elem? t.clients i ≡ some x
    → x.st ≡ clt_login_ok
unfolding login_registered
login_registered-st e s i c m u {t} h hx = elim (Bool-cases (has_prefix u.key auth_key_plaintext)) [
  | inl plain ↦
      (let h0 : (mbuf_to_response e m >>= λ m1.
      challenge m1 >>= λ m2. returns (set_rbuf s i c2 (some m2)))
            ≡ returns t =
          rw plain at h in
        let (m1, e1, h1) = >>=-eq-returns (mbuf_to_response e m) _ h0 in
        reply-st s i c2 (challenge m1) h1 hx)
  | inr other ↦ error_reply-st e s i c1 m _ (rw other at h) hx
]
  where
    c1 : Client
    c1 = record c { st = clt_login_ok; id = u.id; name = some u.name }

    c2 : Client
    c2 = record c1 { key = some u.key }

    challenge : MBuf → Outcome MBuf
    challenge m1 =
        mbuf_addattrib e m1 MsgAttr.challenge (length auth_key_plaintext + 1)
          (blob (auth_key_plaintext ++ 0 ∷ []))

pub non_null-some {ℓ} : {A : Type ℓ} (o : Option A) {a : A} → non_null o ≡ returns a → o ≡ some a
unfolding non_null
non_null-some none h = cc
non_null-some (some b) h = cc

module _ (e : Env) (s : Server) (i : ℕ) (c : Client) (m : MBuf) {t : Server} {x : Client}
    (out : is_auth_ok c.st ≡ false) where
  login_unregistered-admits :
      (av : List ℕ)
      → login_unregistered e s i c m av ≡ returns t
      → get_elem? t.clients i ≡ some x
      → is_auth_ok x.st ≡ true
      → name_in_use s.clients av ≡ false
  unfolding login_unregistered
  login_unregistered-admits av h hx auth = elim (Bool-cases (name_in_use s.clients av)) [
    | inl used ↦ clash x.st c.st (error_reply-st e s i c m _ (rw used at h) hx) auth out
    | inr unused ↦ unused
  ]

  login_found-admits :
      (av : List ℕ) (o : Option User)
      → login_found e s i c m av o ≡ returns t
      → get_elem? t.clients i ≡ some x
      → is_auth_ok x.st ≡ true
      → (o ≡ none) × (name_in_use s.clients av ≡ false)
  unfolding login_found
  login_found-admits av none h hx auth = (refl, login_unregistered-admits av h hx auth)
  login_found-admits av (some u) h hx auth =
      clash x.st clt_login_ok (login_registered-st e s i c m u h hx) auth refl

  auth_key-admits :
      (av key : List ℕ)
      → auth_key e s i c m av key ≡ returns t
      → get_elem? t.clients i ≡ some x
      → is_auth_ok x.st ≡ true
      → str_eq av key ≡ true
  unfolding auth_key
  auth_key-admits av key h hx auth = elim (Bool-cases (str_eq av key)) [
    | inl same ↦ same
    | inr differs ↦
        clash x.st clt_pre_login (error_reply-st e s i _ m _ (rw differs at h) hx) auth refl
  ]

module _ (e : Env) (s : Server) (i : ℕ) (c : Client) (m : MBuf) {t : Server} {x : Client}
    (out : is_auth_ok c.st ≡ false) where
  pub login_req-admits :
      login_req e s i c m ≡ returns t
      → get_elem? t.clients i ≡ some x
      → is_auth_ok x.st ≡ true
      → (is_pre_login c.st ≡ true)
        × (at : Attr) × (av : List ℕ) × (wanted_attr MsgAttr.username m ≡ some at)
        × (string_at m at.av ≡ returns av)
        × ((udb_lookupname s.db av).1 ≡ none)
        × (name_in_use s.clients av ≡ false)
  unfolding login_req login_name
  login_req-admits h hx auth = elim (Bool-cases (is_pre_login c.st)) [
    | inl pre ↦ elim (Option-cases (wanted_attr MsgAttr.username m)) [
      | inl nothing ↦
          clash x.st c.st (error_reply-st e s i c m _ (rw (pre, nothing) at h) hx) auth out
      | inr (a, ea) ↦
          (let (av, eav, hn) = >>=-eq-returns _ _ (rw (pre, ea) at h) in
            (let (nobody, unused) = login_found-admits e _ i c m out av _ hn hx auth in
              (pre, a, av, ea, eav, nobody, unused)))
    ]
    | inr other ↦ clash x.st c.st (error_reply-st e s i c m _ (rw other at h) hx) auth out
  ]

  pub auth_req-admits :
      auth_req e s i c m ≡ returns t
      → get_elem? t.clients i ≡ some x
      → is_auth_ok x.st ≡ true
      → (is_login_ok c.st ≡ true)
        × (at : Attr) × (av : List ℕ) × (key : List ℕ) × (wanted_attr MsgAttr.digest m ≡ some at)
        × (string_at m at.av ≡ returns av)
        × (c.key ≡ some key)
        × (str_eq av key ≡ true)
  unfolding auth_req auth_digest
  auth_req-admits h hx auth = elim (Bool-cases (is_login_ok c.st)) [
    | inl log ↦ elim (Option-cases (wanted_attr MsgAttr.digest m)) [
      | inl nothing ↦
          clash x.st clt_pre_login (error_reply-st e s i _ m _ (rw (log, nothing) at h) hx) auth
            refl
      | inr (a, ea) ↦
          (let (av, eav, hn) = >>=-eq-returns _ _ (rw (log, ea) at h) in
            let (key, ekey, hk) = >>=-eq-returns (non_null c.key) (auth_key e s i c m av) hn in
            (
              log,
              a,
              av,
              key,
              ea,
              eav,
              non_null-some c.key ekey,
              auth_key-admits e s i c m out av key hk hx auth,
            ))
    ]
    | inr other ↦ clash x.st clt_pre_login (error_reply-st e s i _ m _ (rw other at h) hx) auth refl
  ]
