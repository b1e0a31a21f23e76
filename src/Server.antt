-- ===== src/Server.antt =====
-- The relay server, srvmain.c: the client array, the descriptor sets and the operations on them.
-- The remote address of a client, which is only logged, is left out.
pub mod Requests
pub mod Dispatch
pub mod Replies
pub mod Peers
pub mod Io
pub mod Descriptors
pub mod Queues
pub mod Sending
pub mod Single
pub mod Framing
pub mod Arrival
pub mod Reassembly
pub mod Motd
pub mod Stamp
pub mod Answer
pub mod Access
pub mod Inversion
pub mod Admission
pub mod Registered
pub mod Delivered
pub mod Forward
use frelay.Common.{ℕ, zero, suc, ◌+◌, List, [], ◌∷◌, ◌++◌, length, get_elem?, set}
use frelay.Common.{Option, none, some, Bool, true, false, ◌&&◌, not, ltb, leb, ◌==◌, if◌then◌else◌}
use frelay.Common.{Outcome, returns, dies, faults, ◌>>=◌}
use frelay.Message.{MBuf, Env}
use frelay.UserDb.{UserDb}

-- `enum CLT_STATE`.
pub data CltState : Type 0 where
  clt_invalid clt_pre_login clt_login_ok clt_auth_ok : CltState

abbrev pub is_pre_login : CltState → Bool
is_pre_login clt_pre_login = true
is_pre_login _ = false

abbrev pub is_login_ok : CltState → Bool
is_login_ok clt_login_ok = true
is_login_ok _ = false

abbrev pub is_auth_ok : CltState → Bool
is_auth_ok clt_auth_ok = true
is_auth_ok _ = false

-- `fd` is `none` for -1; a null pointer is `none`; the send queue is listed from `qhead` to `qtail`.
pub record Client : Type 0 where
  pub fd : Option ℕ
  pub id : ℕ
  pub name : Option (List ℕ)
  pub key : Option (List ℕ)
  pub st : CltState
  pub act : ℕ
  pub rbuf : Option MBuf
  pub queue : List MBuf

abbrev pub is_open : Client → Bool
is_open c = elim c.fd [ none ↦ false | some n ↦ true ]

-- An `fd_set`, by its members; `FD_SET` and `FD_CLR`.
abbrev pub FdSet : Type 0
FdSet = ℕ → Bool

unfoldable pub fd_set : ℕ → FdSet → FdSet
fd_set n s k = if k == n then true else s k

unfoldable pub fd_clr : ℕ → FdSet → FdSet
fd_clr n s k = if k == n then false else s k

-- A client that is not connected has no descriptor to set or clear.
unfoldable pub fd_set? : Option ℕ → FdSet → FdSet
fd_set? none s = s
fd_set? (some n) s = fd_set n s

unfoldable pub fd_clr? : Option ℕ → FdSet → FdSet
fd_clr? none s = s
fd_clr? (some n) s = fd_clr n s

-- The array has `cfg.max_clients` elements.
pub record Server : Type 0 where
  pub clients : List Client
  pub db : UserDb
  pub motd : List ℕ
  pub m_rfds : FdSet
  pub m_wfds : FdSet

unfoldable pub put_client : Server → ℕ → Client → Server
put_client s i c = record s { clients = set s.clients i c }

-- A slot after `memset`, with the descriptor and the state set anew.
abbrev pub closed_client : Client
closed_client = record {
  fd = none;
  id = 0;
  name = none;
  key = none;
  st = clt_invalid;
  act = 0;
  rbuf = none;
  queue = [];
}

-- `close_client( &c[i], … )` for the client `c` in slot `i`.
unfoldable pub close_client : Server → ℕ → Client → Server
unfolding put_client
close_client s i c = record (put_client s i closed_client) {
  m_rfds = fd_clr? c.fd s.m_rfds;
  m_wfds = fd_clr? c.fd s.m_wfds;
}

abbrev fd_setsize : ℕ
fd_setsize = 1024

-- The first slot that is not in use.
unfoldable pub free_slot : List Client → Option ℕ
free_slot [] = none
free_slot (c ∷ cs) =
    let rest = free_slot cs in
    if is_open c then elim rest [ none ↦ none | some i ↦ some (suc i) ] else some 0

unfoldable pub new_client : ℕ → ℕ → Client
new_client fd now = record {
  fd = some fd;
  id = 0;
  name = none;
  key = none;
  st = clt_pre_login;
  act = now;
  rbuf = none;
  queue = [];
}

-- `accept_client`: what `accept` gave, whether `set_nonblocking` succeeded, the time, and `*pmaxfd`.
-- The results are the slot, or `none` for -1, and the new maximum. The close of a connection that
-- is dropped is not part of the server's state.
unfoldable pub accept_client : Server → Option ℕ → Bool → ℕ → ℕ → Server × Option ℕ × ℕ
accept_client s none nonblocking now maxfd = (s, none, maxfd)
accept_client s (some fd) nonblocking now maxfd =
    if leb fd_setsize fd
    then (s, none, maxfd)
    else if not nonblocking
    then (s, none, maxfd)
    else elim (free_slot s.clients) [
      | none ↦ (s, none, maxfd)
      | some i ↦ (
        record s { clients = set s.clients i (new_client fd now); m_rfds = fd_set fd s.m_rfds },
        some i,
        (if ltb maxfd fd then fd else maxfd),
      )
    ]

-- `now - cp->act > timeout`, for a timeout that is not negative.
abbrev pub is_overdue : ℕ → ℕ → ℕ → Bool
is_overdue now act timeout = ltb (act + timeout) now

unfoldable pub resync_client : ℕ → ℕ → Client → Client
resync_client msg_timeout now c = elim c.rbuf [
  | none ↦ c
  | some m ↦ if is_overdue now c.act msg_timeout then record c { rbuf = none } else c
]

unfoldable pub enqueue_msg : Server → ℕ → Client → MBuf → Server
enqueue_msg s i c m = record s {
  clients = set s.clients i (record c { queue = c.queue ++ record m { boff = 0 } ∷ [] });
  m_wfds = fd_set? c.fd s.m_wfds;
}

-- `dequeue_msg` reads `qhead`, which must not be null.
unfoldable pub dequeue_msg : Server → ℕ → Client → Outcome Server
dequeue_msg s i c = elim c.queue [
  | [] ↦ faults
  | m ∷ [] ↦ returns (record s {
    clients = set s.clients i (record c { queue = [] });
    m_wfds = fd_clr? c.fd s.m_wfds;
  })
  | m ∷ n ∷ rest ↦ returns (record s { clients = set s.clients i (record c { queue = n ∷ rest }) })
]
