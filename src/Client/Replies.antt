-- ===== src/Client/Replies.antt =====
-- cltmain.c, `process_srvmsg`: the responses, to requests of the client itself.
use frelay.Common.{ℕ, zero, suc, ◌+◌, ◌-◌, ◌%◌, ◌^◌, List, [], ◌∷◌, ◌++◌, length, drop, slice}
use frelay.Common.{Option, none, some, Bool, true, false, ◌&&◌, ◌||◌, ltb, ◌==◌, if◌then◌else◌}
use frelay.Common.{if_some, Outcome, returns, faults, ◌>>=◌, get_elem?, codes}
use frelay.Message.MsgType
use frelay.Message.MsgAttr
use frelay.Message.{MBuf, Attr, blob, mbuf_getnextattrib, string_at}
use frelay.Server.Requests.{auth_key_plaintext}
use frelay.Transfer.{Transfer, ttype_offer, ttype_download, transfer_match, transfer_invalidate}
use frelay.Transfer.FileAccess.{download_write}
use frelay.Transfer.Format.{transfer_itostr}
use frelay.Client.{
  Client, Sys, shown, wrote, renamed, auth, naut, plst, imsg, smsg, rpng, dfin, derr, serr,
  clt_pre_login, clt_login_ok, clt_auth_ok, is_pre_login, is_login_ok, is_auth_ok, note, printcon,
}
use frelay.Client.Attributes.{
  Turn, quiet, answer, wanted, after, word_at, notice_text, compose, word_call, put_transfer,
}
use frelay.Client.Peers.{path_max}

-- `MSG_MAX_PAY_SIZE-24`.
abbrev pub max_data_size : ℕ
max_data_size = 65400 - 24

unfoldable pub ping_res : Client → MBuf → Outcome Turn
ping_res s m =
    if is_auth_ok s.st
    then if_some (wanted MsgAttr.ok m) (quiet s) (λ x. quiet (printcon rpng s))
    else quiet s

unfoldable pub offer_res : Sys → Client → MBuf → ℕ → Outcome Turn
offer_res k s m srcid =
    if is_auth_ok s.st
    then if_some (wanted MsgAttr.offerid m) (quiet s) (λ x. word_at m x.av >>= λ oid.
        quiet (record s { transfers = (transfer_match ttype_offer srcid oid k.now s.transfers).0 }))
    else quiet s

-- The download is complete, or the peer has no more data; the partial file gets its name.
unfoldable pub finish_download : Sys → Client → ℕ → Transfer → Outcome Turn
finish_download k s i d =
    let s1 = printcon (if d.offset == d.size then dfin else derr) s in
    let s2 = note (renamed d.partname d.name) (put_transfer s1 i (transfer_invalidate d)) in
    let moved : Bool =
      if_some d.partname false (λ p. if_some d.name false (λ n. k.files.rename p n)) in
    if moved then quiet s2 else quiet (printcon derr s2)

-- `min( d->size - d->offset, MAX_DATA_SIZE )` for 64-bit words.
abbrev pub chunk_size : Transfer → ℕ
chunk_size d =
    let sz = (d.size + 2 ^ 64 - d.offset) % 2 ^ 64 in
    if ltb sz max_data_size then sz else max_data_size

-- The request for the data from the offset of the download on.
unfoldable pub request_data : Sys → Transfer → ℕ → ℕ → Outcome MBuf
request_data k d oid size = compose k MsgType.getfile_req d.rid k.random (
    word_call MsgAttr.offerid oid
    ∷ word_call MsgAttr.offset d.offset
    ∷ word_call MsgAttr.size size
    ∷ [])

unfoldable pub written : Sys → Client → ℕ → Transfer → ℕ → List ℕ → Bool → Outcome Turn
written k s i d oid bytes false = quiet (printcon derr (put_transfer s i (transfer_invalidate d)))
written k s i d oid bytes true =
    let d1 = record d { offset = (d.offset + length bytes) % 2 ^ 64 } in
    request_data k d1 oid (chunk_size d1) >>= answer (put_transfer s i d1)

unfoldable pub write_data : Sys → Client → ℕ → Transfer → ℕ → List ℕ → Outcome Turn
write_data k s i d oid bytes =
    let (d1, done, put) = download_write k.files d bytes in
    written k (note (wrote d.partname put) s) i d1 oid bytes done

unfoldable pub take_data : Sys → Client → ℕ → Transfer → ℕ → List ℕ → Outcome Turn
take_data k s i d oid bytes = do
  buf ← transfer_itostr k.formats path_max (some (codes "%i '%n' %O/%S %D")) d
  if length bytes == 0 then finish_download k s i d else write_data k s i d oid bytes

-- `m` is read up to the offer's id; a response without data, or to no download, is logged.
unfoldable pub getfile_found : Sys → Client → MBuf → ℕ → Option ℕ → Outcome Turn
getfile_found k s m oid none = quiet s
getfile_found k s m oid (some i) = if_some (wanted MsgAttr.data_ m) (quiet s) (λ x.
    if_some (get_elem? s.transfers i) faults (λ d. take_data k s i d oid (slice x.av x.al m.b)))

unfoldable pub getfile_for : Sys → Client → MBuf → ℕ → ℕ → Outcome Turn
getfile_for k s m oid srcid =
    let (ts, found) = transfer_match ttype_download srcid oid k.now s.transfers in
    getfile_found k (record s { transfers = ts }) m oid found

unfoldable pub getfile_res : Sys → Client → MBuf → ℕ → Outcome Turn
getfile_res k s m srcid =
    if is_auth_ok s.st
    then if_some (wanted MsgAttr.offerid m) (quiet s)
        (λ x. word_at m x.av >>= λ oid. getfile_for k s (after m) oid srcid)
    else quiet s

-- The loop over pairs of a peer's id and name; the fuel `bsize` is enough.
unfoldable pub list_peers : ℕ → Client → MBuf → Outcome Client
list_peers zero s m = returns s
list_peers (suc fuel) s m = if_some (wanted MsgAttr.peerid m) (returns s) (λ x.
    if_some (wanted MsgAttr.peername (after m)) (returns s) (λ y. (do
      id ← word_at m x.av
      name ← string_at m y.av
      list_peers fuel (note (shown plst (some name)) s) (after (after m)))))

unfoldable pub peerlist_res : Client → MBuf → ℕ → Outcome Turn
peerlist_res s m srcid =
    if is_auth_ok s.st && srcid == 0
    then (list_peers m.bsize (printcon plst s) m >>= λ s1. quiet s1)
    else quiet s

-- A line, and the notice behind the attribute that was read.
unfoldable pub with_notice : MBuf → Client → Outcome Client
with_notice m s =
    notice_text m >>= λ text. if_some text (returns s) (λ t. returns (note (shown smsg (some t)) s))

-- REGISTER and DROP responses.
unfoldable pub registered : Client → MBuf → ℕ → Outcome Turn
registered s m srcid =
    if is_auth_ok s.st && srcid == 0
    then if_some (wanted MsgAttr.ok m) (quiet s)
        (λ x. with_notice (after m) (printcon imsg s) >>= λ s1. quiet s1)
    else quiet s

-- `0 == strncmp( av, prefix, strlen( prefix ) )` on the bytes from `av` on.
unfoldable pub begins_with : List ℕ → List ℕ → Outcome Bool
begins_with [] s = returns true
begins_with (c ∷ prefix) [] = faults
begins_with (c ∷ prefix) (d ∷ s) =
    let rest = begins_with prefix s in if c == d then rest else returns false

abbrev key_of : Option (List ℕ) → List ℕ
key_of none = []
key_of (some s) = s

unfoldable pub challenged : Sys → Client → ℕ → Bool → Outcome Turn
challenged k s trfid false = quiet (printcon serr s)
challenged k s trfid true =
    let key = auth_key_plaintext ++ key_of s.cfg.pubkey in
    compose k MsgType.auth_req 0 trfid
      (record { attype = MsgAttr.digest; len = length key + 1; arg = blob (key ++ 0 ∷ []) } ∷ [])
    >>= answer (record (printcon imsg s) { st = clt_login_ok })

-- `x` is the first attribute, OK or CHALLENGE.
unfoldable pub logged_in : Sys → Client → MBuf → Attr → ℕ → Outcome Turn
logged_in k s m x trfid = do
  s1 ← with_notice (after m) (printcon imsg s)
  if x.at == MsgAttr.ok
      then quiet (printcon auth (record s1 { st = clt_auth_ok }))
      else (begins_with auth_key_plaintext (drop x.av m.b) >>= challenged k s1 trfid)

unfoldable pub login_res : Sys → Client → MBuf → ℕ → ℕ → Outcome Turn
login_res k s m srcid trfid =
    if is_pre_login s.st && srcid == 0
    then if_some ((mbuf_getnextattrib m).0) (quiet s) (λ x.
      if x.at == MsgAttr.ok || x.at == MsgAttr.challenge then logged_in k s m x trfid else quiet s)
    else quiet s

unfoldable pub auth_res : Client → MBuf → ℕ → Outcome Turn
auth_res s m srcid =
    if is_login_ok s.st && srcid == 0
    then if_some (wanted MsgAttr.ok m) (quiet s) (λ x.
      with_notice (after m) (printcon auth s) >>= λ s1. quiet (record s1 { st = clt_auth_ok }))
    else quiet s

unfoldable pub logout_res : Client → MBuf → ℕ → Outcome Turn
logout_res s m srcid =
    if (is_login_ok s.st || is_auth_ok s.st) && srcid == 0
    then if_some (wanted MsgAttr.ok m) (quiet s) (λ x.
      with_notice (after m) (printcon naut s) >>= λ s1. quiet (record s1 { st = clt_pre_login }))
    else quiet s
