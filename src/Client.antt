-- ===== src/Client.antt =====
-- The client, cltmain.c: its state, the send queue and the requests that wait for a response.
-- The text of the console's lines is left out, but for what a peer sent.
pub mod Attributes
pub mod Peers
pub mod Replies
pub mod Dispatch
pub mod Io
pub mod CommandLine
pub mod Commands
pub mod Frame
pub mod ReplyFrame
pub mod Login
pub mod Pending
pub mod Session
pub mod Wire
pub mod Serving
pub mod Receiving
pub mod Exchange
pub mod Rounds
pub mod Setup
pub mod Download
pub mod Completion
pub mod Loops
pub mod Lookup
pub mod Stream
use frelay.Common.{ℕ, ◌+◌, ◌*◌, ◌/◌, List, [], ◌∷◌, ◌++◌}
use frelay.Common.{Option, none, some, Bool, true, false, ◌&&◌, ltb, ◌==◌, if◌then◌else◌}
use frelay.Common.{Outcome, returns, faults}
use frelay.Message.{
  MBuf, Env, hdr_get_type, hdr_get_ts, hdr_get_srcid, hdr_get_dstid, hdr_get_trfid, mclass_is_req,
  mclass_to_res,
}
use frelay.Transfer.{Transfer, transfer_closeall}
use frelay.Transfer.FileAccess.{FileSys}
use frelay.Transfer.Format.{Formats}

-- `enum CLT_STATE`.
pub data CltState : Type 0 where
  clt_invalid clt_pre_login clt_login_ok clt_auth_ok : CltState

abbrev pub is_pre_login : CltState → Bool
is_pre_login clt_pre_login = true
is_pre_login _ = false

abbrev pub is_login_ok : CltState → Bool
is_login_ok clt_login_ok = true
is_login_ok _ = false

abbrev pub is_auth_ok : CltState → Bool
is_auth_ok clt_auth_ok = true
is_auth_ok _ = false

-- The settings that do not change but by a command.
pub record Cfg : Type 0 where
  pub host : Option (List ℕ)
  pub port : Option (List ℕ)
  pub resp_timeout : ℕ
  pub offer_timeout : ℕ
  pub username : Option (List ℕ)
  pub pubkey : Option (List ℕ)
  pub no_clobber : Bool

-- The prefixes `PFX_*` of the console's lines.
pub data Prefix : Type 0 where
  conn disc auth naut tlst plst cout wdir imsg smsg : Prefix
  qpng rpng offr dsta dfin derr ufin cerr lerr serr : Prefix

-- What can be seen of the client from outside: a line with the text that a peer sent, bytes that
-- were written to the partial file, a call of `rename`, and a file that was unlinked.
pub data Effect : Type 0 where
  shown : Prefix → Option (List ℕ) → Effect
  wrote : Option (List ℕ) → List ℕ → Effect
  renamed : Option (List ℕ) → Option (List ℕ) → Effect
  unlinked : List ℕ → Effect

-- `cfg.st`, the descriptor of the connection, `rbuf`, the queue from `qhead` to `qtail`, `requests`
-- and `transfers`, with the effects so far.
pub record Client : Type 0 where
  pub cfg : Cfg
  pub st : CltState
  pub srvfd : Option ℕ
  pub rbuf : Option MBuf
  pub queue : List MBuf
  pub requests : List MBuf
  pub transfers : List Transfer
  pub effects : List Effect

-- What the libraries give while one event is handled: memory and `ntime_get()`, `time()`, a random
-- number, the file system and formatted texts.
pub record Sys : Type 0 where
  pub env : Env
  pub now : ℕ
  pub random : ℕ
  pub files : FileSys
  pub formats : Formats

unfoldable pub note : Effect → Client → Client
note x s = record s { effects = s.effects ++ x ∷ [] }

unfoldable pub printcon : Prefix → Client → Client
unfolding note
printcon pfx s = note (shown pfx none) s

unfoldable pub enqueue_msg : Client → MBuf → Client
enqueue_msg s m = record s { queue = s.queue ++ record m { boff = 0 } ∷ [] }

-- `dequeue_msg` reads `qhead`, which must not be null.
unfoldable pub dequeue_msg : Client → Outcome Client
dequeue_msg s = elim s.queue [
  | [] ↦ faults
  | m ∷ rest ↦
      if mclass_is_req (hdr_get_type m)
      then returns (record s { queue = rest; requests = m ∷ s.requests })
      else returns (record s { queue = rest })
]

-- The test for a response `m` to the request `q`.
unfoldable pub answers : MBuf → MBuf → Bool
answers q m =
    hdr_get_dstid q == hdr_get_srcid m
    && hdr_get_trfid q == hdr_get_trfid m
    && mclass_to_res (hdr_get_type q) == hdr_get_type m

-- The first request that `m` answers, and the others.
unfoldable pub match_pending_req : MBuf → List MBuf → Option MBuf × List MBuf
match_pending_req m [] = (none, [])
match_pending_req m (q ∷ more) =
    let (r, rest) = match_pending_req m more in
    if answers q m then (some q, more) else (r, q ∷ rest)

abbrev ns_per_s : ℕ
ns_per_s = 1000 * 1000 * 1000

unfoldable pub is_stale : ℕ → ℕ → MBuf → Bool
is_stale now resp_timeout q = ltb (hdr_get_ts q / ns_per_s + resp_timeout) now

unfoldable pub upkeep_pending : ℕ → ℕ → List MBuf → List MBuf
upkeep_pending now resp_timeout [] = []
upkeep_pending now resp_timeout (q ∷ more) =
    let rest = upkeep_pending now resp_timeout more in
    if is_stale now resp_timeout q then rest else q ∷ rest

unfoldable pub disconnect_srv : Client → Client
disconnect_srv s = record s { srvfd = none }

-- The label `DISC` of `handle_srvio`.
unfoldable pub connection_lost : Client → Client
unfolding printcon disconnect_srv
connection_lost s =
    printcon disc
      (record (disconnect_srv (record s { transfers = transfer_closeall s.transfers })) {
        st = clt_invalid;
      })
