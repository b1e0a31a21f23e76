-- ===== src/Server/Forward.antt =====
-- srvmain.c, `process_forward_msg`: how a message passes from one client to another.
use frelay.Common.{ℕ, zero, suc, ◌%◌, ◌^◌, ◌≡◌, ◌≢◌, refl, sym, ap, ◌∙◌, arith}
use frelay.Common.{List, [], ◌∷◌, ◌++◌, get_elem?, set, drop, set-set}
use frelay.Common.{true, false, ◌==◌}
use frelay.Common.{Option, none, some, returns}
use frelay.Message.{MBuf, Env, hdr_get_type, hdr_get_dstid}
use frelay.Message.Header.{header}
use frelay.Message.Buffer.{IsWf}
use frelay.Server.{Client, Server, is_open, is_auth_ok, put_client, fd_set?}
use frelay.Server.Requests.{non_null}
use frelay.Server.Dispatch.{
  find_dst, is_forwarded, forward_to, process_forward_msg, dispatch, stamp, process_msg,
  broadcast_id,
}
use frelay.Server.Delivered.{
  taken, delivered, target, target_kept, get_elem?-taken, delivered-sender, enqueued,
  delivered-target, delivered-armed, delivered-clients, delivered-db,
}
use frelay.Server.Answer.{process_msg-returns, send_back-idle}
use frelay.Server.Stamp.{stamped_header, stamp-kept, header-boff}

-- The destination is an open, authenticated client with the id.
find_dst-found :
    (cs : List Client) (id j : ℕ)
    → find_dst cs id ≡ some j
    → (d : Client) × (get_elem? cs j ≡ some d)
      × (is_open d ≡ true)
      × (is_auth_ok d.st ≡ true)
      × (id ≡ d.id)
unfolding find_dst
find_dst-found [] id j h = cc
find_dst-found (c ∷ cs) id zero h = (c, refl, grind arith, grind arith, grind arith)
find_dst-found (c ∷ cs) id (suc j) h = find_dst-found cs id j (grind arith)

-- The receive buffer of a client has no influence on where a message goes.
find_dst-set :
    (cs : List Client) (id i : ℕ) (c : Client) (r : Option MBuf)
    → get_elem? cs i ≡ some c
    → find_dst (set cs i (record c { rbuf = r })) id ≡ find_dst cs id
unfolding find_dst
find_dst-set [] id i c r h = refl
find_dst-set (x ∷ cs) id zero c r h = let same : x ≡ c = cc in rw same refl
find_dst-set (x ∷ cs) id (suc i) c r h = rw (find_dst-set cs id i c r h) refl

forward_to-delivered :
    (s : Server) (i : ℕ) (c : Client) (r : Option MBuf) (j : ℕ) (d : Client) (m : MBuf)
    → get_elem? s.clients i ≡ some c
    → get_elem? s.clients j ≡ some d
    → forward_to (put_client s i (record c { rbuf = r })) i c m j ≡ returns (delivered s i c j d m)
unfolding forward_to delivered put_client non_null
forward_to-delivered s i c r j d m hi hj =
    rw (set-set s.clients i (record c { rbuf = r }) (taken c))
      (rw (get_elem?-taken s.clients i c j d hi hj) refl)

find_dst-put :
    (s : Server) (i : ℕ) (c : Client) (r : Option MBuf) (id : ℕ)
    → get_elem? s.clients i ≡ some c
    → find_dst (put_client s i (record c { rbuf = r })).clients id ≡ find_dst s.clients id
unfolding put_client
find_dst-put s i c r id hi = find_dst-set s.clients id i c r hi

process_forward :
    (e : Env) (s : Server) (i : ℕ) (c : Client) (m : MBuf) (r : Option MBuf) (j : ℕ) (d : Client)
    → get_elem? s.clients i ≡ some c
    → is_auth_ok c.st ≡ true
    → find_dst s.clients (hdr_get_dstid m) ≡ some j
    → get_elem? s.clients j ≡ some d
    → is_forwarded (hdr_get_type m) ≡ true
    → process_forward_msg e (put_client s i (record c { rbuf = r })) i c m
      ≡ returns (delivered s i c j d m, true)
unfolding process_forward_msg
process_forward e s i c m r j d hi ok found hj known =
    rw
      (
        ok,
        find_dst-put s i c r (hdr_get_dstid m) hi,
        found,
        known,
        forward_to-delivered s i c r j d m hi hj,
      )
      refl

dispatch-peer :
    (e : Env) (s : Server) (i : ℕ) (c : Client) (m : MBuf) (id : ℕ)
    → id ≢ 0
    → id ≢ broadcast_id
    → dispatch e s i c m id ≡ process_forward_msg e s i c m
unfolding dispatch
dispatch-peer e s i c m id z b =
    let y : (id == 0) ≡ false = ground arith in
    let n : (id == broadcast_id) ≡ false = ground arith in rw (y, n) refl

-- A message of a forwarded type from a logged-in client to another's id is passed on.
process_msg-delivered :
    (e : Env) (s : Server) (i : ℕ) (c : Client) (m : MBuf) (j : ℕ) (d : Client)
    → get_elem? s.clients i ≡ some c
    → is_auth_ok c.st ≡ true
    → IsWf m
    → hdr_get_dstid m ≢ 0
    → hdr_get_dstid m ≢ broadcast_id
    → find_dst s.clients (hdr_get_dstid m) ≡ some j
    → get_elem? s.clients j ≡ some d
    → is_forwarded (hdr_get_type m) ≡ true
    → process_msg e s i c m ≡ returns (delivered s i c j d (stamp c m), true)
process_msg-delivered e s i c m j d hi ok w nz nb found hj known =
    let (es, h) = stamped_header c m w ok in
    let dst : hdr_get_dstid (stamp c m) ≡ hdr_get_dstid m = unfold header in ap (λ x. x.dstid) h in
    let ty : hdr_get_type (stamp c m) ≡ hdr_get_type m = unfold header in ap (λ x. x.type) h in
    let (x, ex, gone) = delivered-sender s i c j d (stamp c m) hi in
    let fw =
      process_forward e s i c (stamp c m) (some (stamp c m)) j d hi ok
        (ap (find_dst s.clients) dst ∙ found) hj (ap is_forwarded ty ∙ known) in
    process_msg-returns e s i c m _ true x
      (dispatch-peer e _ i c (stamp c m) (hdr_get_dstid m) nz nb ∙ fw) ex
    ∙ ap (λ t. returns (t, true)) (send_back-idle _ i x gone)

-- What delivery does to the server: the destination's queue grows by the one message, which is the
-- received one with the sender's own id for its source; every slot but the two is as before, and the destination waits to be written to.
pub record Delivery (s : Server) (i : ℕ) (c : Client) (m : MBuf) (t : Server) : Type 0 where
  pub sent : MBuf
  pub stamped : header sent ≡ record (header m) { srcid = c.id % 2 ^ 64 }
  pub payload : drop 40 sent.b ≡ drop 40 m.b
  pub whole : (sent.boff ≡ 0) × (sent.bsize ≡ m.bsize)
  pub to : ℕ
  pub before : Client
  pub after : Client
  pub was : get_elem? s.clients to ≡ some before
  pub now : get_elem? t.clients to ≡ some after
  pub addressed : (before.id ≡ (header m).dstid) × (is_auth_ok before.st ≡ true)
  pub queued : after.queue ≡ before.queue ++ sent ∷ []
  pub armed : t.m_wfds ≡ fd_set? before.fd s.m_wfds
  pub others : t.clients ≡ set (set s.clients i (record c { rbuf = none })) to after
  pub db_kept : t.db ≡ s.db

delivered-Delivery :
    (s : Server) (i : ℕ) (c : Client) (m : MBuf) (j : ℕ) (d : Client)
    → get_elem? s.clients i ≡ some c
    → is_auth_ok c.st ≡ true
    → IsWf m
    → find_dst s.clients (hdr_get_dstid m) ≡ some j
    → get_elem? s.clients j ≡ some d
    → Delivery s i c m (delivered s i c j d (stamp c m))
delivered-Delivery s i c m j d hi ok w found hj =
    let (es, h) = stamped_header c m w ok in
    let (payload, bsize) = stamp-kept c m in
    let (x, ex, is_open, auth, id) = find_dst-found s.clients (hdr_get_dstid m) j found in
    let same : d ≡ x = cc in
    record {
      sent = record (stamp c m) { boff = 0 };
      stamped = header-boff (stamp c m) 0 ∙ h;
      payload = payload;
      whole = (refl, bsize);
      to = j;
      before = d;
      after = enqueued (target i j d) (stamp c m);
      was = hj;
      now = delivered-target s i c j d (stamp c m) hj;
      addressed =
          unfold header in (ap (λ y. y.id) same ∙ sym id, ap (λ y. is_auth_ok y.st) same ∙ auth);
      queued =
          unfold enqueued in
          ap (λ q. q ++ record (stamp c m) { boff = 0 } ∷ []) ((target_kept i j d).0);
      armed = delivered-armed s i c j d (stamp c m);
      others = delivered-clients s i c j d (stamp c m);
      db_kept = delivered-db s i c j d (stamp c m);
    }

-- A well-formed message of a forwarded type that a logged-in client sends to the id of a logged-in
-- client is delivered: `process_msg` returns 0, and the server is as `Delivery` says.
pub process_msg-Delivery :
    (e : Env) (s : Server) (i : ℕ) (c : Client) (m : MBuf) (j : ℕ)
    → get_elem? s.clients i ≡ some c
    → is_auth_ok c.st ≡ true
    → IsWf m
    → hdr_get_dstid m ≢ 0
    → hdr_get_dstid m ≢ broadcast_id
    → find_dst s.clients (hdr_get_dstid m) ≡ some j
    → is_forwarded (hdr_get_type m) ≡ true
    → (t : Server) × (process_msg e s i c m ≡ returns (t, true)) × Delivery s i c m t
process_msg-Delivery e s i c m j hi ok w z b found known =
    let (d, hj, is_open, auth, id) = find_dst-found s.clients (hdr_get_dstid m) j found in
    (
      delivered s i c j d (stamp c m),
      process_msg-delivered e s i c m j d hi ok w z b found hj known,
      delivered-Delivery s i c m j d hi ok w found hj,
    )
