-- ===== src/Server/Access.antt =====
-- srvmain.c: who may send what. A client that has not logged in is refused.
use frelay.Common.{ℕ, ◌≡◌, refl, ap, ◌∙◌}
use frelay.Common.{get_elem?, get_elem?-lt}
use frelay.Common.{Bool, true, false, ◌&&◌, ◌||◌, not, ◌==◌, Bool-cases, inl, inr}
use frelay.Common.{none, some, returns, ◌>>=◌}
use frelay.Message.{MBuf, Env, hdr_get_type, hdr_get_dstid}
use frelay.Message.Header.{header}
use frelay.Message.Buffer.{IsWf}
use frelay.Server.{Client, Server, is_auth_ok, put_client, enqueue_msg}
use frelay.Server.Requests.{error_reply}
use frelay.Server.Dispatch.{
  process_forward_msg, process_server_msg, process_broadcast_msg, dispatch, stamp, process_msg,
  broadcast_id,
}
use frelay.Message.RoundTrip.{Carries, error_header, error_attrs}
use frelay.Message.MsgType
use frelay.Status.{sc_forbidden}
use frelay.Server.Answer.{process_msg-answered}
use frelay.Server.Stamp.{stamp-IsWf, stamp-addressed}
use frelay.Server.Replies.{error_reply-Carries}

-- All but the login, authentication and register requests to the server itself.
abbrev pub needs_login : ℕ → ℕ → Bool
needs_login dstid mtype =
    not (dstid == 0)
    || (not (mtype == MsgType.login_req)
        && not (mtype == MsgType.auth_req)
        && not (mtype == MsgType.register_req))

pub dispatch-forbidden :
    (e : Env) (s : Server) (i : ℕ) (c : Client) (m : MBuf) (id : ℕ)
    → is_auth_ok c.st ≡ false
    → needs_login id (hdr_get_type m) ≡ true
    → dispatch e s i c m id ≡ (error_reply e s i c m sc_forbidden >>= λ t. returns (t, false))
unfolding dispatch process_server_msg process_broadcast_msg process_forward_msg
dispatch-forbidden e s i c m id out need = elim (Bool-cases (id == 0)) [
  | inl server ↦ (let outside = rw server at need in rw (server, out, outside) refl)
  | inr peer ↦ elim (Bool-cases (id == broadcast_id)) [
    | inl all ↦ rw (peer, all, out) refl
    | inr one ↦ rw (peer, one, out) refl
  ]
]

-- A client that is not authenticated gets a FORBIDDEN error for every message that needs a login,
-- and the server's state changes in nothing else: no peer receives anything, and the user database
-- is as it was. The source id of the error is the destination id of the message, the peer's if it
-- was addressed to one.
pub process_msg-forbidden :
    (e : Env) (s : Server) (i : ℕ) (c : Client) (m : MBuf)
    → get_elem? s.clients i ≡ some c
    → is_auth_ok c.st ≡ false
    → IsWf m
    → needs_login (hdr_get_dstid m) (hdr_get_type m) ≡ true
    → (r : MBuf) × (process_msg e s i c m
        ≡ returns (enqueue_msg s i (record c { rbuf = none }) r, false))
      × Carries r (error_header e.clock (header (stamp c m))) (error_attrs sc_forbidden)
process_msg-forbidden e s i c m hi out w need =
    let y = record c { rbuf = some (stamp c m) } in
    let (r, er, carries) =
      error_reply-Carries e (put_client s i y) i c (stamp c m) sc_forbidden (stamp-IsWf c m w) in
    (
      r,
      process_msg-answered e s i c m s y c r false
          (dispatch-forbidden e _ i c (stamp c m) (hdr_get_dstid m) out
              (ap (needs_login (hdr_get_dstid m)) ((stamp-addressed c m w).0) ∙ need)
            ∙ rw er refl)
          (get_elem?-lt s.clients i hi),
      carries,
    )
