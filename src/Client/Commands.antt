-- ===== src/Client/Commands.antt =====
-- cltmain.c, `process_stdin`: the commands.
use frelay.Common.{ℕ, zero, suc, ◌+◌, List, [], ◌∷◌, ◌++◌, length, get_elem?, codes}
use frelay.Common.{Option, none, some, Bool, true, false, ltb, ◌==◌, if◌then◌else◌}
use frelay.Common.{if_some, Outcome, returns, faults, ◌>>=◌}
use frelay.Message.MsgType
use frelay.Message.MsgAttr
use frelay.Message.{MBuf, str, blob}
use frelay.Message.RoundTrip.{Call}
use frelay.Strings.{strtoull16}
use frelay.Transfer.{
  Transfer, ttype_download, transfer_match, transfer_closeall, transfer_remove, transfer_list,
  offer_new,
}
use frelay.Transfer.FileAccess.{download_resume, download_write}
use frelay.Transfer.Format.{transfer_itostr}
use frelay.Transfer.Ids.{transfer_strtoi}
use frelay.Client.{
  Client, Sys, Prefix, conn, disc, tlst, cout, wdir, imsg, dsta, dfin, derr, cerr, is_auth_ok,
  clt_invalid, clt_pre_login, printcon, disconnect_srv, enqueue_msg,
}
use frelay.Client.Attributes.{compose, word_call, put_transfer}
use frelay.Client.Replies.{request_data, max_data_size}
use frelay.Client.CommandLine.{
  Cmd, accept, cd, cmd, connect, disconnect, drop_, exit, help, list, login, logout, offer,
  peerlist, ping, pwd, register, remove, sh, Arg, split_line, rest_of_line, cmd_list, find_cmd,
}

-- The value of `r`: -1, 0, 1 and -2. A command with `remote` may have a message `mp`.
pub data Result : Type 0 where
  error remote local quit : Result

-- What else the system gives: the loop over `getaddrinfo` and `connect`, `stat`, the id of a new
-- offer, whether the console is a terminal, whether `fork` and `chdir` succeeded, and the number of
-- lines that an external command prints.
pub record Local : Type 0 where
  pub connects : List ℕ → Option (List ℕ) → Option ℕ
  pub fsize : List ℕ → Option ℕ
  pub offer_id : ℕ
  pub is_tty : Bool
  pub forks : Bool
  pub chdir : Bool
  pub output : ℕ

abbrev Done : Type 0
Done = Client × Option MBuf × Result

abbrev fails : Client → Outcome Done
fails s = returns (printcon cerr s, none, error)

abbrev sends : Client → Outcome MBuf → Outcome Done
sends s m = m >>= λ mp. returns (s, some mp, remote)

abbrev stays : Client → Outcome Done
stays s = returns (s, none, local)

-- An attribute with a text and its terminator.
abbrev text_call : ℕ → List ℕ → Call
text_call attype s = record { attype = attype; len = length s + 1; arg = str s }

abbrev notice_calls : Option (List ℕ) → List Call
notice_calls none = []
notice_calls (some text) = text_call MsgAttr.notice text ∷ []

-- `arg[1]` and the text from `arg[2]` on.
unfoldable pub cmd_ping : Sys → Client → List Arg → Option (List ℕ) → Outcome Done
cmd_ping k s (a ∷ b ∷ more) text =
    sends s (compose k MsgType.ping_req (strtoull16 b.text).0 k.random (notice_calls text))
cmd_ping k s more text = sends s (compose k MsgType.ping_req 0 k.random [])

-- `basename`: the last component, without slashes behind it.
unfoldable pub strip_slashes : List ℕ → List ℕ
strip_slashes [] = []
strip_slashes (c ∷ s) =
    let t = strip_slashes s in if c == b'/' then elim t [ [] ↦ [] | x ∷ xs ↦ c ∷ x ∷ xs ] else c ∷ t

unfoldable pub last_component : List ℕ → List ℕ → List ℕ
last_component cur [] = cur
last_component cur (c ∷ s) = last_component (if c == b'/' then s else cur) s

unfoldable pub basename : List ℕ → List ℕ
basename [] = b'.' ∷ []
basename (c ∷ s) = elim (strip_slashes (c ∷ s)) [
  | [] ↦ b'/' ∷ []
  | x ∷ xs ↦ last_component (x ∷ xs) (x ∷ xs)
]

-- The new offer is the head of the list.
unfoldable pub send_offer : Sys → Client → List ℕ → List Transfer → Outcome Done
send_offer k s filename [] = faults
send_offer k s filename (o ∷ more) =
    sends (record s { transfers = o ∷ more })
      (compose k MsgType.offer_req o.rid k.random (
        word_call MsgAttr.offerid o.oid
        ∷ text_call MsgAttr.filename (basename filename)
        ∷ word_call MsgAttr.size o.size
        ∷ []))

unfoldable pub cmd_offer : Sys → Local → Client → List Arg → Outcome Done
cmd_offer k l s (a ∷ dest ∷ file ∷ more) =
    if is_auth_ok s.st
    then if_some (l.fsize file.text) (fails s) (λ fsz.
      send_offer k s file.text
        (offer_new (strtoull16 dest.text).0 file.text (some fsz) l.offer_id k.now s.transfers))
    else fails s
cmd_offer k l s more = fails s

abbrev aline_size : ℕ
aline_size = 4000

-- The line on the console, and the request for the first data.
unfoldable pub start_download : Sys → Client → ℕ → ℕ → Transfer → Prefix → List ℕ → Outcome Done
start_download k s i oid d pfx fmt = do
  aline ← transfer_itostr k.formats aline_size (some fmt) d
  mp ← request_data k d oid (if ltb d.size max_data_size then d.size else max_data_size)
  returns (printcon pfx (put_transfer s i d), some mp, remote)

-- A partial file that is there is resumed, otherwise it is created.
unfoldable pub create_download : Sys → Client → ℕ → ℕ → Transfer → Outcome Done
create_download k s i oid d =
    let (d1, created, put) = download_write k.files d [] in
    if created then start_download k s i oid d1 dfin (codes "%i '%n' %S") else (do
      aline ← transfer_itostr k.formats aline_size (some (codes "%i '%n'")) d1
      returns (printcon derr (put_transfer s i d1), none, error))

unfoldable pub begin_download : Sys → Client → ℕ → ℕ → Transfer → Outcome Done
begin_download k s i oid d =
    let (d1, resumed) = download_resume k.files d in
    if resumed
    then start_download k s i oid d1 dsta
        (if ltb 0 d1.offset then codes "%i '%n' %O/%S" else codes "%i '%n' %S")
    else create_download k s i oid d1

unfoldable pub accept_at : Sys → Client → ℕ → Option ℕ → Outcome Done
accept_at k s oid none = fails s
accept_at k s oid (some i) =
    if_some (get_elem? s.transfers i) faults (λ d. begin_download k s i oid d)

unfoldable pub accept_ids : Sys → Client → ℕ → ℕ → Outcome Done
accept_ids k s rid oid =
    let (ts, found) = transfer_match ttype_download rid oid k.now s.transfers in
    accept_at k (record s { transfers = ts }) oid found

unfoldable pub cmd_accept : Sys → Client → List Arg → Outcome Done
cmd_accept k s (a ∷ id ∷ more) = elim (transfer_strtoi false id.text) [
  | none ↦ fails s
  | some (n, type, rid, oid) ↦ if ltb n 2 then fails s else accept_ids k s rid oid
]
cmd_accept k s more = fails s

-- `connect_srv`, and the state that the command sets.
unfoldable pub connect_srv : Local → Client → List ℕ → Option (List ℕ) → Client
connect_srv l s host service =
    if_some (l.connects host service) (printcon cerr (disconnect_srv s))
      (λ fd. printcon conn (record s { srvfd = some fd }))

unfoldable pub connected : Client → Outcome Done
connected s =
    if_some s.srvfd (returns (record s { st = clt_invalid }, none, error))
      (λ fd. stays (record s { st = clt_pre_login }))

unfoldable pub cmd_connect : Local → Client → List Arg → Outcome Done
cmd_connect l s (a ∷ h ∷ p ∷ more) = connected (connect_srv l s h.text (some p.text))
cmd_connect l s (a ∷ h ∷ []) = connected (connect_srv l s h.text s.cfg.port)
cmd_connect l s more = if_some s.cfg.host (fails s) (λ h. connected (connect_srv l s h s.cfg.port))

unfoldable pub cmd_disconnect : Client → Outcome Done
cmd_disconnect s = if_some s.srvfd (stays (record s { st = clt_invalid })) (λ fd.
    stays
      (record (printcon disc
        (disconnect_srv (record s { transfers = transfer_closeall s.transfers }))) {
          st = clt_invalid;
        }))

unfoldable pub cmd_register : Sys → Client → List Arg → Outcome Done
cmd_register k s (a ∷ p ∷ more) = sends s (
    compose k MsgType.register_req 0 k.random (
      record { attype = MsgAttr.pubkey; len = length p.text + 1; arg = blob (p.text ++ 0 ∷ []) }
      ∷ []))
cmd_register k s more = fails s

unfoldable pub send_login : Sys → Client → List ℕ → Outcome Done
send_login k s user =
    sends s (compose k MsgType.login_req 0 k.random (text_call MsgAttr.username user ∷ []))

unfoldable pub cmd_login : Sys → Client → List Arg → Outcome Done
cmd_login k s (a ∷ u ∷ p ∷ more) =
    send_login k (record s { cfg = record s.cfg { pubkey = some p.text } }) u.text
cmd_login k s (a ∷ u ∷ []) = send_login k s u.text
cmd_login k s more = if_some s.cfg.username (fails s) (λ u. send_login k s u)

unfoldable pub removed : Client → List Transfer → Option ℕ → Outcome Done
removed s ts none = fails s
removed s ts (some n) =
    let s1 = record s { transfers = ts } in if ltb 0 n then stays (printcon imsg s1) else fails s1

unfoldable pub cmd_remove : Client → List Arg → Outcome Done
cmd_remove s (a ∷ p ∷ more) = let (ts, n) = transfer_remove p.text s.transfers in removed s ts n
cmd_remove s more = fails s

-- One line for each transfer.
unfoldable pub cmd_list_transfers : Sys → Client → List Transfer → Outcome Done
cmd_list_transfers k s [] = stays s
cmd_list_transfers k s (t ∷ more) = do
  buf ← transfer_itostr k.formats 4096 (some (codes "%i '%n' %O/%S %T %D %A")) t
  cmd_list_transfers k (printcon tlst s) more

-- One line for each command.
unfoldable pub cmd_help : List (List ℕ × Cmd) → Client → Client
cmd_help [] s = s
cmd_help (c ∷ more) s = cmd_help more (printcon imsg s)

unfoldable pub show_output : ℕ → Client → Client
show_output zero s = s
show_output (suc n) s = show_output n (printcon cout s)

-- The change of directory may fail; then the directory is shown.
unfoldable pub cmd_cd : Local → Client → List Arg → Outcome Done
cmd_cd l s (a ∷ b ∷ more) = stays (printcon wdir (if l.chdir then s else printcon cerr s))
cmd_cd l s more = stays (printcon wdir s)

unfoldable pub cmd_cmd : Local → Client → List Arg → Outcome Done
cmd_cmd l s (a ∷ b ∷ more) = stays (show_output l.output s)
cmd_cmd l s more = fails s

unfoldable pub cmd_sh : Local → Client → Outcome Done
cmd_sh l s =
    if l.is_tty
    then (if l.forks then stays s else returns (s, none, error))
    else returns (printcon cerr s, none, remote)

unfoldable pub run_cmd :
    Sys → Local → Client → List Arg → Option (List ℕ) → Option Cmd → Outcome Done
run_cmd k l s args text none = fails s
run_cmd k l s args text (some help) = stays (cmd_help cmd_list (printcon imsg s))
run_cmd k l s args text (some ping) = cmd_ping k s args text
run_cmd k l s args text (some peerlist) = sends s (compose k MsgType.peerlist_req 0 k.random [])
run_cmd k l s args text (some offer) = cmd_offer k l s args
run_cmd k l s args text (some accept) = cmd_accept k s args
run_cmd k l s args text (some connect) = cmd_connect l s args
run_cmd k l s args text (some disconnect) = cmd_disconnect s
run_cmd k l s args text (some register) = cmd_register k s args
run_cmd k l s args text (some drop_) = sends s (compose k MsgType.drop_req 0 k.random [])
run_cmd k l s args text (some login) = cmd_login k s args
run_cmd k l s args text (some logout) = sends s (compose k MsgType.logout_req 0 k.random [])
run_cmd k l s args text (some list) =
    cmd_list_transfers k (printcon tlst s) (transfer_list (λ t. true) s.transfers)
run_cmd k l s args text (some remove) = cmd_remove s args
run_cmd k l s args text (some exit) =
    returns (record (disconnect_srv s) { st = clt_invalid }, none, quit)
run_cmd k l s args text (some cd) = cmd_cd l s args
run_cmd k l s args text (some pwd) = stays (printcon wdir s)
run_cmd k l s args text (some cmd) = cmd_cmd l s args
run_cmd k l s args text (some sh) = cmd_sh l s

-- Behind the `switch`: a message is queued if there is a connection.
unfoldable pub finish : Done → Outcome (Client × Result)
finish (s, mp, remote) =
    if_some s.srvfd (returns (printcon cerr s, remote))
      (λ fd. if_some mp (returns (s, remote)) (λ m. returns (enqueue_msg s m, remote)))
finish (s, mp, r) = returns (s, r)

abbrev last_of : Arg → List Arg → Arg
last_of a [] = a
last_of a (b ∷ more) = last_of b more

abbrev third : List ℕ → Arg → List Arg → Option (List ℕ)
third line a (b ∷ c ∷ more) = some (rest_of_line line a c (last_of c more))
third line a more = none

-- An empty line, or an ambiguous command, is an error.
unfoldable pub run_args : Sys → Local → Client → List ℕ → List Arg → Outcome (Client × Result)
run_args k l s line [] = returns (s, error)
run_args k l s line (a ∷ more) =
    if length a.text == 0
    then returns (s, error)
    else if_some (find_cmd a.text cmd_list none) (returns (printcon cerr s, error))
        (λ c. run_cmd k l s (a ∷ more) (third line a more) c >>= finish)

-- What `read` gives on the standard input: a line, its end, or an error.
pub data Input : Type 0 where
  line : List ℕ → Input
  eof : Input
  broken : Input

unfoldable pub process_stdin : Sys → Local → Client → Input → Outcome (Client × Result)
process_stdin k l s (line text) = run_args k l s text (split_line text)
process_stdin k l s eof = returns (s, quit)
process_stdin k l s broken = returns (s, error)
