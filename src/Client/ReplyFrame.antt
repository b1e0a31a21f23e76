-- ===== src/Client/ReplyFrame.antt =====
-- cltmain.c, `process_srvmsg`: the parts of the client that most responses leave alone.
use frelay.Common.{ℕ, zero, suc, ◌≡◌, List, Option, none, some, Bool, true, false}
use frelay.Common.{Outcome, ◌>>=◌}
use frelay.Common.Ensures.{
  Ensures, Ensures-returns, Ensures-then, Ensures-if, Ensures-if_some, ensures_rules,
}
use frelay.Message.{MBuf}
use frelay.Message.MsgAttr
use frelay.Client.{Client, Sys, shown, wrote, plst, imsg, note, printcon}
use frelay.Client.Attributes.{quiet, wanted, after, put_transfer}
use frelay.Client.Replies.{
  ping_res, offer_res, getfile_res, getfile_for, getfile_found, take_data, write_data, written,
  finish_download, list_peers, peerlist_res, with_notice, registered,
}
use frelay.Client.Frame.{Kept, Same, Same-all}
use frelay.Transfer.{Transfer, ttype_download, transfer_match}
use frelay.Transfer.FileAccess.{download_write}

pub ping_res-Same : (s : Client) (m : MBuf) → Ensures (Same s) (ping_res s m)
unfolding ping_res note printcon
ping_res-Same s m = search (ensures_rules, Same-all) depth 12

pub offer_res-Same :
    (k : Sys) (s : Client) (m : MBuf) (srcid : ℕ) → Ensures (Same s) (offer_res k s m srcid)
unfolding offer_res
offer_res-Same k s m srcid = search (ensures_rules, Same-all) depth 12

finish_download-Same :
    (k : Sys) (s : Client) (i : ℕ) (d : Transfer) → Ensures (Same s) (finish_download k s i d)
unfolding finish_download note printcon put_transfer
finish_download-Same k s i d = search (ensures_rules, Same-all) depth 12

written-Same :
    (k : Sys) (s : Client) (i : ℕ) (d : Transfer) (oid : ℕ) (bytes : List ℕ) (done : Bool)
    → Ensures (Same s) (written k s i d oid bytes done)
unfolding written note printcon put_transfer
written-Same k s i d oid bytes false = search (ensures_rules, Same-all) depth 12
written-Same k s i d oid bytes true = search (ensures_rules, Same-all) depth 12

write_data-Same :
    (k : Sys) (s : Client) (i : ℕ) (d : Transfer) (oid : ℕ) (bytes : List ℕ)
    → Ensures (Same s) (write_data k s i d oid bytes)
unfolding write_data note
write_data-Same k s i d oid bytes =
    let w = download_write k.files d bytes in
    written-Same k (note (wrote d.partname w.2) s) i w.0 oid bytes w.1

take_data-Same :
    (k : Sys) (s : Client) (i : ℕ) (d : Transfer) (oid : ℕ) (bytes : List ℕ)
    → Ensures (Same s) (take_data k s i d oid bytes)
unfolding take_data
take_data-Same k s i d oid bytes =
    search (ensures_rules, write_data-Same, finish_download-Same) depth 12

getfile_found-Same :
    (k : Sys) (s : Client) (m : MBuf) (oid : ℕ) (found : Option ℕ)
    → Ensures (Same s) (getfile_found k s m oid found)
unfolding getfile_found
getfile_found-Same k s m oid none = search (ensures_rules, Same-all)
getfile_found-Same k s m oid (some i) = search (ensures_rules, Same-all, take_data-Same) depth 12

getfile_for-Same :
    (k : Sys) (s : Client) (m : MBuf) (oid srcid : ℕ)
    → Ensures (Same s) (getfile_for k s m oid srcid)
unfolding getfile_for
getfile_for-Same k s m oid srcid =
    let r = transfer_match ttype_download srcid oid k.now s.transfers in
    getfile_found-Same k (record s { transfers = r.0 }) m oid r.1

pub getfile_res-Same :
    (k : Sys) (s : Client) (m : MBuf) (srcid : ℕ) → Ensures (Same s) (getfile_res k s m srcid)
unfolding getfile_res
getfile_res-Same k s m srcid = search (ensures_rules, Same-all, getfile_for-Same) depth 12

Kept-all :
    (s c : Client)
    → c.cfg ≡ s.cfg
    → c.st ≡ s.st
    → c.srvfd ≡ s.srvfd
    → c.queue ≡ s.queue
    → c.requests ≡ s.requests
    → Kept s c
Kept-all s t a b c d e = (a, b, c, d, e)

list_peers-Kept : (fuel : ℕ) (s : Client) (m : MBuf) → Ensures (Kept s) (list_peers fuel s m)
unfolding list_peers note
list_peers-Kept zero s m = search (ensures_rules, Kept-all)
list_peers-Kept (suc fuel) s m =
    let more : (name : List ℕ)
        → Ensures (Kept s) (list_peers fuel (note (shown plst (some name)) s) (after (after m))) =
      λ name. list_peers-Kept fuel (note (shown plst (some name)) s) (after (after m)) in
    search (ensures_rules, Kept-all, more) depth 12

pub with_notice-Kept : (m : MBuf) (s : Client) → Ensures (Kept s) (with_notice m s)
unfolding with_notice note
with_notice-Kept m s = search (ensures_rules, Kept-all) depth 12

then_quiet :
    (s : Client) (m : Outcome Client) → Ensures (Kept s) m → Ensures (Same s) (m >>= λ s1. quiet s1)
then_quiet s m h = Ensures-then m (λ s1. quiet s1) h (λ s1 kept. Ensures-returns _ kept)

pub peerlist_res-Same :
    (s : Client) (m : MBuf) (srcid : ℕ) → Ensures (Same s) (peerlist_res s m srcid)
unfolding peerlist_res note printcon
peerlist_res-Same s m srcid = search (ensures_rules, Same-all, listed) depth 12
  where
    listed : Ensures (Same s) (list_peers m.bsize (printcon plst s) m >>= λ s1. quiet s1)
    listed = then_quiet s _ (list_peers-Kept m.bsize (printcon plst s) m)

pub registered-Same : (s : Client) (m : MBuf) (srcid : ℕ) → Ensures (Same s) (registered s m srcid)
unfolding registered note printcon
registered-Same s m srcid =
    Ensures-if _ _ _ (λ h. Ensures-if_some (wanted MsgAttr.ok m) _ _ same (λ x. noticed))
      (λ h. same)
  where
    noticed : Ensures (Same s) (with_notice (after m) (printcon imsg s) >>= λ s1. quiet s1)
    noticed = then_quiet s _ (with_notice-Kept (after m) (printcon imsg s))

    same : Ensures (Same s) (quiet s)
    same = search (ensures_rules, Same-all)
