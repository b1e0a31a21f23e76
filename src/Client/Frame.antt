-- ===== src/Client/Frame.antt =====
-- cltmain.c, `process_srvmsg`: the parts of the client that the cases for peers leave alone.
use frelay.Common.{ℕ, ◌≡◌, refl, ◌∙◌, List, [], ◌∷◌, Option, none, some, Outcome}
use frelay.Common.Ensures.{Ensures, Ensures-bind, ensures_rules}
use frelay.Message.{MBuf}
use frelay.Client.{Client, Sys, unlinked, note, printcon}
use frelay.Client.Attributes.{Turn, put_transfer}
use frelay.Client.Peers.{
  unlink_all, ping, offer_req, offer_to, offered, getfile_req, getfile_of, serve_found, serve_offer,
  read_data, send_data,
}
use frelay.Transfer.{Transfer, ttype_offer, transfer_match}

-- All but the console, the transfers and the receive buffer is as before.
abbrev pub Kept : Client → Client → Type 0
Kept s c =
    (c.cfg ≡ s.cfg)
    × (c.st ≡ s.st)
    × (c.srvfd ≡ s.srvfd)
    × (c.queue ≡ s.queue)
    × (c.requests ≡ s.requests)

abbrev pub Same : Client → Turn → Type 0
Same s t = Kept s t.client

pub Same-all :
    (s : Client) (t : Turn)
    → t.client.cfg ≡ s.cfg
    → t.client.st ≡ s.st
    → t.client.srvfd ≡ s.srvfd
    → t.client.queue ≡ s.queue
    → t.client.requests ≡ s.requests
    → Same s t
Same-all s t a b c d e = (a, b, c, d, e)

pub ping-Same :
    (k : Sys) (s : Client) (m : MBuf) (mtype srcid trfid : ℕ)
    → Ensures (Same s) (ping k s m mtype srcid trfid)
unfolding ping note
ping-Same k s m mtype srcid trfid = search (ensures_rules, Same-all) depth 12

offered-Same :
    (k : Sys) (s : Client) (d : Transfer) (srcid trfid : ℕ)
    → Ensures (Same s) (offered k s d srcid trfid)
unfolding offered note printcon
offered-Same k s d srcid trfid = search (ensures_rules, Same-all) depth 12

-- What keeps the parts keeps them from an earlier client on that had the same.
Same-from :
    (s s1 : Client) (m : Outcome Turn) → Kept s s1 → Ensures (Same s1) m → Ensures (Same s) m
Same-from s s1 m h g = record {
  at = λ t e. let k = g.at t e in (k.0 ∙ h.0, k.1 ∙ h.1, k.2 ∙ h.2, k.3 ∙ h.3, k.4 ∙ h.4);
}

unlink_all-Kept : (gone : List (List ℕ)) (s : Client) → Kept s (unlink_all gone s)
unfolding unlink_all note
unlink_all-Kept [] s = (refl, refl, refl, refl, refl)
unlink_all-Kept (name ∷ more) s = unlink_all-Kept more (note (unlinked name) s)

offer_to-Same :
    (k : Sys) (s : Client) (m : MBuf) (srcid trfid : ℕ) (ts : List Transfer)
    → Ensures (Same s) (offer_to k s m srcid trfid ts)
unfolding offer_to
offer_to-Same k s m srcid trfid [] = search ensures_rules
offer_to-Same k s m srcid trfid (d ∷ more) = Ensures-bind _ _ (λ d1.
    Same-from s (unlink_all d1.1 (record s { transfers = more })) _
      (unlink_all-Kept d1.1 (record s { transfers = more }))
      (offered-Same k (unlink_all d1.1 (record s { transfers = more })) d1.0 srcid trfid))

pub offer_req-Same :
    (k : Sys) (s : Client) (m : MBuf) (srcid trfid : ℕ)
    → Ensures (Same s) (offer_req k s m srcid trfid)
unfolding offer_req
offer_req-Same k s m srcid trfid = search (ensures_rules, Same-all, offer_to-Same) depth 12

serve_offer-Same :
    (k : Sys) (s : Client) (i : ℕ) (o : Transfer) (oid offset size srcid trfid : ℕ)
    → Ensures (Same s) (serve_offer k s i o oid offset size srcid trfid)
unfolding serve_offer read_data send_data note printcon put_transfer
serve_offer-Same k s i o oid offset size srcid trfid = search (ensures_rules, Same-all) depth 12

serve_found-Same :
    (k : Sys) (s : Client) (m : MBuf) (oid srcid trfid : ℕ) (found : Option ℕ)
    → Ensures (Same s) (serve_found k s m oid srcid trfid found)
unfolding serve_found
serve_found-Same k s m oid srcid trfid none = search (ensures_rules, Same-all)
serve_found-Same k s m oid srcid trfid (some i) = search (ensures_rules, serve_offer-Same) depth 12

getfile_of-Same :
    (k : Sys) (s : Client) (m : MBuf) (oid srcid trfid : ℕ)
    → Ensures (Same s) (getfile_of k s m oid srcid trfid)
unfolding getfile_of
getfile_of-Same k s m oid srcid trfid =
    serve_found-Same k
      (record s { transfers = (transfer_match ttype_offer srcid oid k.now s.transfers).0 }) m oid
      srcid trfid (transfer_match ttype_offer srcid oid k.now s.transfers).1

pub getfile_req-Same :
    (k : Sys) (s : Client) (m : MBuf) (srcid trfid : ℕ)
    → Ensures (Same s) (getfile_req k s m srcid trfid)
unfolding getfile_req
getfile_req-Same k s m srcid trfid = search (ensures_rules, Same-all, getfile_of-Same) depth 12
