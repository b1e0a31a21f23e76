-- ===== src/Server/Single.antt =====
-- srvmain.c, AUTH_REQ: a user that authenticates again is disconnected elsewhere.
use frelay.Common.{ℕ, zero, suc, ◌+◌, ◌≤◌, ◌<◌, ◌≡◌, ◌≢◌, refl, ap, ◌∙◌, arith}
use frelay.Common.{
  List, length, get_elem?, get_elem?-set_self, get_elem?-set_ne, get_elem?-lt, length-set,
}
use frelay.Common.{true, false, ◌&&◌, not, ◌==◌, if◌then◌else◌, Bool-cases, inl, inr}
use frelay.Common.{Option, none, some, returns, ◌>>=◌}
use frelay.Message.{MBuf, Env, Attr, string_at}
use frelay.Message.MsgAttr
use frelay.Message.Header.{header}
use frelay.Message.Buffer.{IsWf, response_header}
use frelay.Message.RoundTrip.{Carries}
use frelay.Strings.Compare.{str_eq_self}
use frelay.Server.{
  Client, Server, clt_auth_ok, is_login_ok, is_open, closed_client, close_client, put_client,
}
use frelay.Server.Requests.{
  close_if_same, close_same_id, auth_key, auth_digest, auth_req, wanted_attr, non_null, set_rbuf,
  notice_reply,
}
use frelay.Server.Replies.{notice_reply-Carries, notice_attrs}

-- What becomes of the client in slot `n` when `i` authenticates for the id.
abbrev evicted : ℕ → ℕ → ℕ → Client → Client
evicted i id n c = if id == c.id && not (i == n) && is_open c then closed_client else c

abbrev evicted? : ℕ → ℕ → ℕ → Option Client → Option Client
evicted? i id n none = none
evicted? i id n (some c) = some (evicted i id n c)

close_if_same_self :
    (s : Server) (i id j : ℕ) (o : Option Client)
    → get_elem? s.clients j ≡ o
    → get_elem? (close_if_same s i id j o).clients j ≡ evicted? i id j o
unfolding close_if_same close_client put_client
close_if_same_self s i id j none h = h
close_if_same_self s i id j (some d) h =
    elim (Bool-cases (id == d.id && not (i == j) && is_open d)) [
      | inl closed ↦
          rw (closed, get_elem?-set_self s.clients j closed_client (get_elem?-lt s.clients j h))
            refl
      | inr kept ↦ rw kept h
    ]

close_if_same-other :
    (s : Server) (i id j n : ℕ) (o : Option Client)
    → j ≢ n
    → get_elem? (close_if_same s i id j o).clients n ≡ get_elem? s.clients n
unfolding close_if_same close_client put_client
close_if_same-other s i id j n none h = refl
close_if_same-other s i id j n (some d) h =
    elim (Bool-cases (id == d.id && not (i == j) && is_open d)) [
      | inl closed ↦ rw (closed, get_elem?-set_ne s.clients j n closed_client h) refl
      | inr kept ↦ rw kept refl
    ]

-- The slots before `j` are as they were.
close_same_id-outside :
    (k j : ℕ) (s : Server) (i id n : ℕ)
    → n < j
    → get_elem? (close_same_id k j s i id).clients n ≡ get_elem? s.clients n
unfolding close_same_id
close_same_id-outside zero j s i id n h = refl
close_same_id-outside (suc k) j s i id n h =
    close_same_id-outside k (j + 1) _ i id n (omega arith)
    ∙ close_if_same-other s i id j n (get_elem? s.clients j) (λ e. absurd (omega (arith, e)))

close_same_id-inside :
    (k j : ℕ) (s : Server) (i id n : ℕ)
    → j ≤ n
    → n < j + k
    → get_elem? (close_same_id k j s i id).clients n ≡ evicted? i id n (get_elem? s.clients n)
unfolding close_same_id
close_same_id-inside zero j s i id n lo hi = absurd (omega arith)
close_same_id-inside (suc k) j s i id n lo hi = elim (Bool-cases (j == n)) [
  | inl here ↦
      (let same : j ≡ n = ground arith in
        rw same (
          close_same_id-outside k (n + 1) _ i id n (omega arith)
          ∙ close_if_same_self s i id n (get_elem? s.clients n) refl))
  | inr later ↦
      (let other : j ≢ n = λ e. absurd (ground arith) in
        close_same_id-inside k (j + 1) _ i id n (ground arith) (omega arith)
        ∙ ap (evicted? i id n) (close_if_same-other s i id j n (get_elem? s.clients j) other))
]

close_if_same-length :
    (s : Server) (i id j : ℕ) (o : Option Client)
    → length (close_if_same s i id j o).clients ≡ length s.clients
unfolding close_if_same close_client put_client
close_if_same-length s i id j none = refl
close_if_same-length s i id j (some d) =
    elim (Bool-cases (id == d.id && not (i == j) && is_open d)) [
      | inl closed ↦ rw closed (length-set s.clients j closed_client)
      | inr kept ↦ rw kept refl
    ]

close_same_id-length :
    (k j : ℕ) (s : Server) (i id : ℕ) → length (close_same_id k j s i id).clients ≡ length s.clients
unfolding close_same_id
close_same_id-length zero j s i id = refl
close_same_id-length (suc k) j s i id =
    close_same_id-length k (j + 1) _ i id ∙ close_if_same-length s i id j (get_elem? s.clients j)

evicted-other :
    (i id n : ℕ) (d : Client)
    → i ≢ n
    → evicted i id n d ≡ (if id == d.id && is_open d then closed_client else d)
evicted-other i id n d other =
    let no : (i == n) ≡ false = ground arith in
    elim (Bool-cases (id == d.id)) [ inl e ↦ rw (e, no) refl | inr e ↦ rw e refl ]

-- The client that authenticates is passed over by the loop.
evicted_self : (i id : ℕ) (c : Client) → evicted i id i c ≡ c
evicted_self i id c =
    let yes_i : (i == i) ≡ true = ground arith in
    elim (Bool-cases (id == c.id)) [ inl e ↦ rw (e, yes_i) refl | inr e ↦ rw e refl ]

close_same_id_self :
    (s : Server) (i id : ℕ) (c : Client)
    → get_elem? s.clients i ≡ some c
    → get_elem? (close_same_id (length s.clients) 0 s i id).clients i ≡ some c
close_same_id_self s i id c h =
    close_same_id-inside (length s.clients) 0 s i id i (omega arith)
      (omega (arith, get_elem?-lt s.clients i h))
    ∙ ap (evicted? i id i) h
    ∙ ap some (evicted_self i id c)

auth_key-matches :
    (e : Env) (s : Server) (i : ℕ) (c : Client) (m : MBuf) (key : List ℕ)
    → get_elem? s.clients i ≡ some c
    → auth_key e s i c m key key
      ≡ notice_reply e
          (close_same_id (length s.clients) 0 s i c.id)
          i
          (record c { st = clt_auth_ok })
          m
          s.motd
unfolding auth_key non_null
auth_key-matches e s i c m key hi = rw (str_eq_self key, close_same_id_self s i c.id c hi) refl

auth_req-matches :
    (e : Env) (s : Server) (i : ℕ) (c : Client) (m : MBuf) (a : Attr) (key : List ℕ)
    → get_elem? s.clients i ≡ some c
    → is_login_ok c.st ≡ true
    → wanted_attr MsgAttr.digest m ≡ some a
    → string_at m a.av ≡ returns key
    → c.key ≡ some key
    → auth_req e s i c m
      ≡ notice_reply e
          (close_same_id (length s.clients) 0 s i c.id)
          i
          (record c { st = clt_auth_ok })
          m
          s.motd
unfolding auth_req auth_digest non_null
auth_req-matches e s i c m a key hi log ea ek kept =
    rw (log, ea, ek)
      (ap (λ o. non_null o >>= auth_key e s i c m key) kept ∙ auth_key-matches e s i c m key hi)

-- A client that gives the right key is answered with OK and the message of the day and becomes
-- authenticated, its own connection, name and queue being as before, and of the other slots exactly
-- those are closed whose client is connected under the same id: at most one connection of a user
-- stays open.
pub auth_req-exclusive :
    (e : Env) (s : Server) (i : ℕ) (c : Client) (m : MBuf) (a : Attr) (key : List ℕ) (n : ℕ)
    (d : Client)
    → IsWf m
    → length s.motd < 4000
    → get_elem? s.clients i ≡ some c
    → is_login_ok c.st ≡ true
    → wanted_attr MsgAttr.digest m ≡ some a
    → string_at m a.av ≡ returns key
    → c.key ≡ some key
    → i ≢ n
    → get_elem? s.clients n ≡ some d
    → (t : Server) × (r : MBuf) × (auth_req e s i c m ≡ returns t)
      × (get_elem? t.clients i ≡ some (record c { st = clt_auth_ok; rbuf = some r }))
      × Carries r (response_header e.clock (header m)) (notice_attrs s.motd)
      × (get_elem? t.clients n ≡ some (if c.id == d.id && is_open d then closed_client else d))
unfolding set_rbuf put_client
auth_req-exclusive e s i c m a key n d w short hi log ea ek kept other hn =
    let u = close_same_id (length s.clients) 0 s i c.id in
    let (r, er, carries) =
      notice_reply-Carries e u i (record c { st = clt_auth_ok }) m s.motd w short in
    (
      set_rbuf u i (record c { st = clt_auth_ok }) (some r),
      r,
      auth_req-matches e s i c m a key hi log ea ek kept ∙ er,
      get_elem?-set_self u.clients i _ (
          omega (
            arith,
            close_same_id-length (length s.clients) 0 s i c.id,
            get_elem?-lt s.clients i hi,
          )),
      carries,
      get_elem?-set_ne u.clients i n _ other
          ∙ close_same_id-inside (length s.clients) 0 s i c.id n (omega arith)
              (omega (arith, get_elem?-lt s.clients n hn))
          ∙ ap (evicted? i c.id n) hn
          ∙ ap some (evicted-other i c.id n d other),
    )
