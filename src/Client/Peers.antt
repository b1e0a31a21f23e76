-- ===== src/Client/Peers.antt =====
-- cltmain.c, `process_srvmsg`: the indications and requests that come from peers.
use frelay.Common.{ℕ, zero, suc, ◌+◌, ◌%◌, ◌^◌, List, [], ◌∷◌, ◌++◌, length, get_elem?, codes}
use frelay.Common.{Option, none, some, Bool, true, ◌||◌, ◌==◌, if◌then◌else◌}
use frelay.Common.{if_some, Outcome, returns, faults, ◌>>=◌}
use frelay.Message.MsgType
use frelay.Message.MsgAttr
use frelay.Message.{MBuf, Attr, blob, mbuf_getnextattrib, mclass_is_req, string_at}
use frelay.Status.{sc_bad_request, sc_not_found, sc_range_not_satisfiable}
use frelay.Transfer.{Transfer, ttype_offer, transfer_match, transfer_invalidate, download_new}
use frelay.Transfer.FileAccess.{FileSys, make_filenames, offer_read}
use frelay.Transfer.Format.{transfer_itostr}
use frelay.Client.{Client, Sys, shown, unlinked, qpng, offr, ufin, is_auth_ok, note, printcon}
use frelay.Client.Attributes.{
  Turn, quiet, answer, refuse, wanted, after, word_at, word_or_zero, notice_text, compose,
  word_call, ok_call, put_transfer,
}

-- The buffer `buf` is static.
abbrev pub path_max : ℕ
path_max = 4096

unfoldable pub ping : Sys → Client → MBuf → ℕ → ℕ → ℕ → Outcome Turn
ping k s m mtype srcid trfid =
    if is_auth_ok s.st
    then (do
      text ← notice_text m
      let s1 = note (shown qpng text) s
      if mclass_is_req mtype
          then (compose k MsgType.ping_res srcid trfid (ok_call ∷ []) >>= answer s1)
          else quiet s1)
    else quiet s

-- A download, and the files that were unlinked while its name was chosen.
abbrev pub Offer : Type 0
Offer = Transfer × List (List ℕ)

-- One round of the loop over the attributes of an offer.
unfoldable pub offer_attr : FileSys → Bool → Offer → MBuf → Attr → Outcome Offer
offer_attr k no_clobber (d, gone) m x =
    if x.at == MsgAttr.offerid
    then (do v ← word_at m x.av; returns (record d { oid = v }, gone))
    else if x.at == MsgAttr.filename
    then (do
      s ← string_at m x.av
      let (d1, more) = make_filenames k d s no_clobber
      returns (d1, gone ++ more))
    else if x.at == MsgAttr.size
    then (do v ← word_at m x.av; returns (record d { size = v }, gone))
    else returns (d, gone)

-- Each round takes an attribute of eight bytes at least, so the fuel `bsize` is enough.
unfoldable pub offer_attrs : ℕ → FileSys → Bool → Offer → MBuf → Outcome Offer
offer_attrs zero k no_clobber d m = returns d
offer_attrs (suc fuel) k no_clobber d m = if_some ((mbuf_getnextattrib m).0) (returns d) (λ x. (do
  d1 ← offer_attr k no_clobber d m x
  offer_attrs fuel k no_clobber d1 (mbuf_getnextattrib m).1))

-- `NULL == d->name || 0 == strlen( d->name ) || 0 == d->size`.
unfoldable pub is_bad_offer : Transfer → Bool
is_bad_offer d = if_some d.name true (λ name. length name == 0 || d.size == 0)

-- `s` has the transfers without the new one, which becomes the first.
unfoldable pub offered : Sys → Client → Transfer → ℕ → ℕ → Outcome Turn
offered k s d srcid trfid =
    if is_bad_offer d
    then refuse (record s { transfers = transfer_invalidate d ∷ s.transfers }) sc_bad_request
    else (do
      buf ← transfer_itostr k.formats path_max (some (codes "%i '%n' %S")) d
      mp ← compose k MsgType.offer_res srcid trfid (word_call MsgAttr.offerid d.oid ∷ ok_call ∷ [])
      answer (printcon offr (record s { transfers = d ∷ s.transfers })) mp)

unfoldable pub unlink_all : List (List ℕ) → Client → Client
unlink_all [] s = s
unlink_all (name ∷ more) s = unlink_all more (note (unlinked name) s)

unfoldable pub offer_to : Sys → Client → MBuf → ℕ → ℕ → List Transfer → Outcome Turn
offer_to k s m srcid trfid [] = faults
offer_to k s m srcid trfid (d ∷ more) = do
  (d1, gone) ← offer_attrs m.bsize k.files s.cfg.no_clobber (record d { rid = srcid }, []) m
  offered k (unlink_all gone (record s { transfers = more })) d1 srcid trfid

unfoldable pub offer_req : Sys → Client → MBuf → ℕ → ℕ → Outcome Turn
offer_req k s m srcid trfid =
    if is_auth_ok s.st then offer_to k s m srcid trfid (download_new k.now s.transfers) else quiet s

-- `data` and `size` are given, and `o` is the offer after it was read.
unfoldable pub send_data : Sys → Client → ℕ → Transfer → ℕ → ℕ → List ℕ → ℕ → ℕ → ℕ → Outcome Turn
send_data k s i o oid offset bytes size srcid trfid = do
  mp ← compose k MsgType.getfile_res srcid trfid (
      word_call MsgAttr.offerid oid
      ∷ record { attype = MsgAttr.data_; len = size; arg = blob bytes }
      ∷ [])
  answer (put_transfer s i (record o { offset = (offset + size) % 2 ^ 64 })) mp

unfoldable pub read_data : Sys → Client → ℕ → Transfer → ℕ → ℕ → ℕ → ℕ → ℕ → Outcome Turn
read_data k s i o oid offset size srcid trfid = do
  (o1, bytes, sz) ← offer_read k.files o offset size
  if_some bytes (refuse (put_transfer s i o1) sc_range_not_satisfiable)
      (λ bs. send_data k s i o1 oid offset bs sz srcid trfid)

-- A size of 0 says that the download has finished.
unfoldable pub serve_offer : Sys → Client → ℕ → Transfer → ℕ → ℕ → ℕ → ℕ → ℕ → Outcome Turn
serve_offer k s i o oid offset size srcid trfid =
    if size == 0
    then (do
      buf ← transfer_itostr k.formats path_max (some (codes "%i '%n' %S %D")) o
      send_data k (printcon ufin s) i (transfer_invalidate o) oid offset [] 0 srcid trfid)
    else read_data k s i o oid offset size srcid trfid

-- `found` is the position of the offer in `s.transfers`; `m` is read up to the offer's id.
unfoldable pub serve_found : Sys → Client → MBuf → ℕ → ℕ → ℕ → Option ℕ → Outcome Turn
serve_found k s m oid srcid trfid none = refuse s sc_not_found
serve_found k s m oid srcid trfid (some i) = do
  offset ← word_or_zero MsgAttr.offset m
  size ← word_or_zero MsgAttr.size (after m)
  if_some (get_elem? s.transfers i) faults (λ o. serve_offer k s i o oid offset size srcid trfid)

unfoldable pub getfile_of : Sys → Client → MBuf → ℕ → ℕ → ℕ → Outcome Turn
getfile_of k s m oid srcid trfid =
    let (ts, found) = transfer_match ttype_offer srcid oid k.now s.transfers in
    serve_found k (record s { transfers = ts }) m oid srcid trfid found

unfoldable pub getfile_req : Sys → Client → MBuf → ℕ → ℕ → Outcome Turn
getfile_req k s m srcid trfid =
    if is_auth_ok s.st
    then if_some (wanted MsgAttr.offerid m) (quiet s)
        (λ x. word_at m x.av >>= λ oid. getfile_of k s (after m) oid srcid trfid)
    else quiet s
