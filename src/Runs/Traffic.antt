-- ===== src/Runs/Traffic.antt =====
-- The server of srvmain.c at concrete inputs: clients that talk, log in and are refused.
use frelay.Common.{
  ℕ, ◌+◌, ◌/◌, ◌%◌, ◌≡◌, refl, arith, List, [], ◌∷◌, ◌++◌, length, replicate, slice, get_elem?,
  codes,
}
use frelay.Common.{true, false, Option, none, some, if◌then◌else◌, ◌&&◌, ◌==◌, returns}
use frelay.Bytes.Order.{length-put64}
use frelay.Bytes.{get16, get64, load, hton16, hton64, swap2, swap8, of_low_bytes}
use frelay.Message.MsgType
use frelay.Message.MsgAttr
use frelay.Message.{
  MBuf, Env, Attr, host, hdr_get_type, hdr_get_dstid, mbuf_new, fresh, mbuf_getnextattrib,
  string_at, c_string,
}
use frelay.Message.Header.{header}
use frelay.Message.Buffer.{IsWf, response_header}
use frelay.Message.RoundTrip.{Carries, error_header, error_attrs}
use frelay.Status.{sc_forbidden}
use frelay.UserDb.{UserDb}
use frelay.Server.{
  Client, Server, CltState, clt_pre_login, clt_login_ok, clt_auth_ok, closed_client, resync_client,
  enqueue_msg, is_open,
}
use frelay.Server.Dispatch.{process_msg, stamp, find_dst, is_forwarded}
use frelay.Server.Forward.{Delivery, process_msg-Delivery}
use frelay.Server.Single.{auth_req-exclusive}
use frelay.Server.Peers.{peers, peerlist_req-Carries}
use frelay.Server.Replies.{notice_attrs}
use frelay.Server.Requests.{auth_req, peerlist_req, wanted_attr, set_rbuf}
use frelay.Server.Framing.{IsMessage, Whole, Holds}
use frelay.Server.Arrival.{Reads, read_from-Reads}
use frelay.Server.Reassembly.{read_all, read_all-new}
use frelay.Server.Io.{read_from, moved}
use frelay.Server.Access.{process_msg-forbidden}

abbrev pub env : Env
env = record { heap = λ n. 170; clock = 1000 }

abbrev client : ℕ → ℕ → List ℕ → Option (List ℕ) → CltState → Client
client fd id name key st = record {
  fd = some fd;
  id = id;
  name = some name;
  key = key;
  st = st;
  act = 0;
  rbuf = none;
  queue = [];
}

-- Alice and Bob have logged in, Bob is about to authenticate again, and a guest has connected.
abbrev pub alice : Client
alice = client 4 2 (codes "alice") (some (codes "plain-text one")) clt_auth_ok

abbrev pub bob : Client
bob = client 7 1 (codes "bob") (some (codes "plain-text two")) clt_auth_ok

abbrev pub bob_again : Client
bob_again = client 6 1 (codes "bob") (some (codes "plain-text two")) clt_login_ok

abbrev pub guest : Client
guest = record {
  fd = some 5;
  id = 0;
  name = none;
  key = none;
  st = clt_pre_login;
  act = 0;
  rbuf = none;
  queue = [];
}

abbrev accounts : UserDb
accounts = record {
  userdb =
      record { id = 2; name = codes "alice"; key = codes "plain-text one" }
      ∷ record { id = 1; name = codes "bob"; key = codes "plain-text two" }
      ∷ [];
  next_id = 3;
  disk = record { content = none; writable = true };
}

abbrev pub server : Server
server = record {
  clients = alice ∷ guest ∷ bob_again ∷ bob ∷ [];
  db = accounts;
  motd = codes "Welcome!";
  m_rfds = λ n. false;
  m_wfds = λ n. false;
}

-- The eight bytes of a small word.
abbrev word : ℕ → List ℕ
word n = replicate 7 0 ++ n ∷ []

-- A message from 99, with the payload that is given.
abbrev pub message : ℕ → ℕ → List ℕ → MBuf
message type dst payload = record {
  bsize = 40 + length payload;
  boff = 40 + length payload;
  b =
      type / 256
      ∷ type % 256
      ∷ 0
      ∷ length payload
      ∷ (replicate 12 0 ++ (word 99 ++ (word dst ++ (word 5 ++ payload))));
}

abbrev pub ping : MBuf
ping = message MsgType.ping_req 1 []

message-type : hdr_get_type ping ≡ MsgType.ping_req
unfolding hdr_get_type get16 load hton16 swap2 of_low_bytes slice
message-type = refl

ping-dstid : hdr_get_dstid ping ≡ 1
unfolding hdr_get_dstid get64 load hton64 swap8 of_low_bytes slice
ping-dstid = refl

ping-IsWf : IsWf ping
ping-IsWf = record { sized = refl; least = omega arith; most = omega arith }

ping-found : find_dst server.clients (hdr_get_dstid ping) ≡ some 3
unfolding find_dst
ping-found = rw ping-dstid refl

ping-forwarded : is_forwarded (hdr_get_type ping) ≡ true
unfolding is_forwarded
ping-forwarded = rw message-type refl

process_msg-Delivery_example :
    (t : Server) × (process_msg env server 0 alice ping ≡ returns (t, true))
    × Delivery server 0 alice ping t
process_msg-Delivery_example =
    process_msg-Delivery env server 0 alice ping 3 refl refl ping-IsWf
      (λ e. omega (arith, e, ping-dstid)) (λ e. omega (arith, e, ping-dstid)) ping-found
      ping-forwarded

process_msg-forbidden_example :
    (r : MBuf) × (process_msg env server 1 guest ping
      ≡ returns (enqueue_msg server 1 (record guest { rbuf = none }) r, false))
    × Carries r (error_header 1000 (header (stamp guest ping))) (error_attrs sc_forbidden)
process_msg-forbidden_example =
    process_msg-forbidden env server 1 guest ping refl refl ping-IsWf (rw ping-dstid refl)

-- The key of an AUTH request, at offset 48 of its message.
abbrev pub auth_msg : MBuf
auth_msg =
    record (message MsgType.auth_req 0
      (0 ∷ MsgAttr.digest ∷ 0 ∷ 15 ∷ 0 ∷ 0 ∷ 0 ∷ 0 ∷ (codes "plain-text two" ++ 0 ∷ 0 ∷ []))) {
        boff = 40;
      }

abbrev digest_attr : Attr
digest_attr = record { at = MsgAttr.digest; al = 15; av = 48 }

auth_msg-digest : wanted_attr MsgAttr.digest auth_msg ≡ some digest_attr
unfolding wanted_attr mbuf_getnextattrib get16 load hton16 swap2 of_low_bytes slice
auth_msg-digest = refl

auth_msg-key : string_at auth_msg 48 ≡ returns (codes "plain-text two")
unfolding string_at c_string
auth_msg-key = refl

auth_req-exclusive_example :
    (t : Server) × (r : MBuf) × (auth_req env server 2 bob_again auth_msg ≡ returns t)
    × (get_elem? t.clients 2 ≡ some (record bob_again { st = clt_auth_ok; rbuf = some r }))
    × Carries r (response_header 1000 (header auth_msg)) (notice_attrs server.motd)
    × (get_elem? t.clients 3
        ≡ some (if bob_again.id == bob.id && is_open bob then closed_client else bob))
auth_req-exclusive_example =
    auth_req-exclusive env server 2 bob_again auth_msg digest_attr (codes "plain-text two") 3 bob
      (record { sized = refl; least = omega arith; most = omega arith }) (omega arith) refl refl
      auth_msg-digest auth_msg-key refl (λ e. omega (arith, e)) refl

peerlist_req-Carries_example :
    (r : MBuf) × (peerlist_req env server 0 alice ping ≡ returns (set_rbuf server 0 alice (some r)))
    × Carries r (response_header 1000 (header ping)) (peers server.clients)
peerlist_req-Carries_example =
    peerlist_req-Carries env server 0 alice ping ping-IsWf
      ((λ e. (codes "alice", refl)), ((λ e. cc), ((λ e. cc), ((λ e. (codes "bob", refl)), tt))))
      (omega (arith, length-put64 host 2, length-put64 host 1))

ping-IsMessage : IsMessage ping.b
unfolding get16 load hton16 swap2 of_low_bytes slice
ping-IsMessage = record { least = omega arith; most = omega arith; paylen = refl }

read_all-new_example :
    (q : MBuf) × (read_all env (mbuf_new env) (replicate 40 2) (ping.b ++ 0 ∷ 17 ∷ []) ≡ returns q)
    × Whole ping.b q
read_all-new_example =
    read_all-new env ping.b (replicate 40 2) (0 ∷ 17 ∷ []) ping-IsMessage (omega arith)

-- A whole message for the guest, who has no receive buffer yet.
guest-fresh : resync_client 30 77 guest ≡ guest
unfolding resync_client
guest-fresh = refl

new-Holds : Holds ping.b 0 (mbuf_new env)
unfolding mbuf_new fresh
new-Holds = record { at = refl; sized = refl; size = refl; bytes = refl; waits = omega arith }

read_from-Reads_example :
    Reads env server 1
      (record guest { rbuf = some (mbuf_new env); act = 77 })
      ping.b
      40
      (read_from env 30 77 server 1 guest (moved (slice 0 40 ping.b)))
unfolding mbuf_new
read_from-Reads_example =
    read_from-Reads env 30 77 server 1 guest guest (mbuf_new env) ping.b 0 40 guest-fresh refl
      ping-IsMessage new-Holds (omega arith) (omega arith)
