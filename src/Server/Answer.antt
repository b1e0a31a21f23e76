-- ===== src/Server/Answer.antt =====
-- srvmain.c, `process_msg`: what is left in the receive buffer is sent back to the client.
use frelay.Common.{ℕ, ◌<◌, ◌≡◌, refl, ap, ◌∙◌}
use frelay.Common.{length, get_elem?, get_elem?-set_self, set-set}
use frelay.Common.{Bool}
use frelay.Common.{Option, none, some, returns}
use frelay.Message.{MBuf, Env, hdr_get_dstid}
use frelay.Server.{Client, Server, put_client, enqueue_msg, fd_set?}
use frelay.Server.Requests.{non_null, set_rbuf}
use frelay.Server.Dispatch.{dispatch, stamp, send_back, process_msg}

pub process_msg-returns :
    (e : Env) (s : Server) (i : ℕ) (c : Client) (m : MBuf) (t : Server) (r : Bool) (x : Client)
    → dispatch e
        (put_client s i (record c { rbuf = some (stamp c m) }))
        i
        c
        (stamp c m)
        (hdr_get_dstid m)
      ≡ returns (t, r)
    → get_elem? t.clients i ≡ some x
    → process_msg e s i c m ≡ returns (send_back t i x, r)
unfolding process_msg non_null
process_msg-returns e s i c m t r x h ex = rw (h, ex) refl

pub send_back-idle : (t : Server) (i : ℕ) (x : Client) → x.rbuf ≡ none → send_back t i x ≡ t
unfolding send_back
send_back-idle t i x h = rw h refl

set_rbuf-put :
    (s : Server) (i : ℕ) (y c : Client) (r : Option MBuf)
    → set_rbuf (put_client s i y) i c r ≡ put_client s i (record c { rbuf = r })
unfolding set_rbuf put_client
set_rbuf-put s i y c r =
    ap (λ cs. record s { clients = cs }) (set-set s.clients i y (record c { rbuf = r }))

put_client-slot :
    (s : Server) (i : ℕ) (c : Client)
    → i < length s.clients
    → get_elem? (put_client s i c).clients i ≡ some c
unfolding put_client
put_client-slot s i c room = get_elem?-set_self s.clients i c room

send_back-enqueued :
    (s : Server) (i : ℕ) (c : Client) (r : MBuf)
    → send_back (put_client s i (record c { rbuf = some r })) i (record c { rbuf = some r })
      ≡ enqueue_msg s i (record c { rbuf = none }) r
unfolding send_back put_client enqueue_msg
send_back-enqueued s i c r =
    ap (λ cs. record s { clients = cs; m_wfds = fd_set? c.fd s.m_wfds })
      (set-set s.clients i (record c { rbuf = some r }) _)

-- A handler that leaves a reply in the receive buffer has it queued for the client.
pub process_msg-answered :
    (e : Env) (s : Server) (i : ℕ) (c : Client) (m : MBuf) (u : Server) (y c1 : Client) (r : MBuf)
    (b : Bool)
    → dispatch e
        (put_client s i (record c { rbuf = some (stamp c m) }))
        i
        c
        (stamp c m)
        (hdr_get_dstid m)
      ≡ returns (set_rbuf (put_client u i y) i c1 (some r), b)
    → i < length u.clients
    → process_msg e s i c m ≡ returns (enqueue_msg u i (record c1 { rbuf = none }) r, b)
process_msg-answered e s i c m u y c1 r b h room =
    process_msg-returns e s i c m (put_client u i (record c1 { rbuf = some r })) b
      (record c1 { rbuf = some r }) (rw (set_rbuf-put u i y c1 (some r)) at h)
      (put_client-slot u i (record c1 { rbuf = some r }) room)
    ∙ ap (λ t. returns (t, b)) (send_back-enqueued u i c1 r)
