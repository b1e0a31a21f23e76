-- ===== src/Client/Login.antt =====
-- cltmain.c, `process_srvmsg`: the state of the login, and which message changes it.
use frelay.Common.{ℕ, ◌≡◌, refl, ap, Bool, true, false, Option, none, some, if_some, Option-cases}
use frelay.Common.{◌&&◌, ◌||◌, ◌==◌, arith, Outcome, Bool-cases, inl, inr}
use frelay.Common.Ensures.{
  Ensures, Ensures-returns, Ensures-bind, Ensures-then, Ensures-if, Ensures-some, ensures_rules,
}
use frelay.Message.{MBuf, Attr, mbuf_getnextattrib}
use frelay.Message.MsgType
use frelay.Message.MsgAttr
use frelay.Client.{
  Client, Sys, CltState, clt_pre_login, clt_login_ok, clt_auth_ok, is_pre_login, is_login_ok,
  is_auth_ok, note, printcon, imsg, auth, naut,
}
use frelay.Client.Attributes.{Turn, quiet, wanted, after}
use frelay.Client.Replies.{challenged, logged_in, login_res, auth_res, logout_res}
use frelay.Client.Dispatch.{other, auth_err, serve}
use frelay.Client.Frame.{Kept, Same, Same-all}
use frelay.Client.Frame.{ping-Same, offer_req-Same, getfile_req-Same}
use frelay.Client.ReplyFrame.{
  with_notice-Kept, ping_res-Same, offer_res-Same, getfile_res-Same, peerlist_res-Same,
  registered-Same,
}

-- The steps of the login: the type, the source and the first attribute of the message that makes
-- each.
pub data Move (mtype srcid : ℕ) (first : Option ℕ) (a : CltState) : CltState → Type 0 where
  stay : {b : CltState} → b ≡ a → Move mtype srcid first a b
  admitted :
      {b : CltState}
      → mtype ≡ MsgType.login_res
      → srcid ≡ 0
      → first ≡ some MsgAttr.ok
      → a ≡ clt_pre_login
      → b ≡ clt_auth_ok
      → Move mtype srcid first a b
  challenged_ :
      {b : CltState}
      → mtype ≡ MsgType.login_res
      → srcid ≡ 0
      → first ≡ some MsgAttr.challenge
      → a ≡ clt_pre_login
      → b ≡ clt_login_ok
      → Move mtype srcid first a b
  authenticated :
      {b : CltState}
      → mtype ≡ MsgType.auth_res
      → srcid ≡ 0
      → first ≡ some MsgAttr.ok
      → a ≡ clt_login_ok
      → b ≡ clt_auth_ok
      → Move mtype srcid first a b
  logged_out :
      {b : CltState}
      → mtype ≡ MsgType.logout_res
      → srcid ≡ 0
      → first ≡ some MsgAttr.ok
      → (is_login_ok a || is_auth_ok a) ≡ true
      → b ≡ clt_pre_login
      → Move mtype srcid first a b
  rejected :
      {b : CltState}
      → mtype ≡ MsgType.auth_err
      → a ≡ clt_login_ok
      → b ≡ clt_pre_login
      → Move mtype srcid first a b

-- The type of the first attribute.
unfoldable pub first_attr : MBuf → Option ℕ
first_attr m = if_some ((mbuf_getnextattrib m).0) none (λ x. some x.at)

-- The state moves, and all but the console, the transfers and the receive buffer is as before.
abbrev pub Moved : ℕ → ℕ → Option ℕ → Client → Turn → Type 0
Moved mtype srcid first s t =
    Move mtype srcid first s.st t.client.st
    × (t.client.cfg ≡ s.cfg)
    × (t.client.srvfd ≡ s.srvfd)
    × (t.client.queue ≡ s.queue)
    × (t.client.requests ≡ s.requests)

pre_login_only : (c : CltState) → is_pre_login c ≡ true → c ≡ clt_pre_login
pre_login_only clt_pre_login h = refl
pre_login_only c h = cc

login_ok_only : (c : CltState) → is_login_ok c ≡ true → c ≡ clt_login_ok
login_ok_only clt_login_ok h = refl
login_ok_only c h = cc

both_true : (a b : Bool) → (a && b) ≡ true → (a ≡ true) × (b ≡ true)
both_true true true h = (refl, refl)
both_true true false h = cc
both_true false b h = cc

type_only : (a b : ℕ) → (a == b) ≡ true → a ≡ b
type_only a b h = ground arith

challenge_left :
    (at : ℕ)
    → (at == MsgAttr.ok || at == MsgAttr.challenge) ≡ true
    → (at == MsgAttr.ok) ≡ false
    → at ≡ MsgAttr.challenge
challenge_left at h n = ground arith

wanted-first : (at : ℕ) (m : MBuf) (x : Attr) → wanted at m ≡ some x → first_attr m ≡ some at
unfolding wanted first_attr
wanted-first at m x h = elim (Option-cases ((mbuf_getnextattrib m).0)) [
  | inl nothing ↦ absurd (none_not_some (rw nothing at h))
  | inr (y, found) ↦ elim (Bool-cases (y.at == at)) [
    | inl same ↦ rw found (ap some (type_only y.at at same))
    | inr differs ↦ absurd (none_not_some (rw (found, differs) at h))
  ]
]
  where
    none_not_some : {y : Attr} → Path (Option Attr) none (some y) → ⊥
    none_not_some e = cc

Same-Moved :
    (mtype srcid : ℕ) (first : Option ℕ) (s : Client) (m : Outcome Turn)
    → Ensures (Same s) m
    → Ensures (Moved mtype srcid first s) m
Same-Moved mtype srcid first s m h = record {
  at = λ t e. let k = h.at t e in (stay k.1, k.0, k.2, k.3, k.4);
}

quiet-Moved :
    (mtype srcid : ℕ) (first : Option ℕ) (s : Client)
    → Ensures (Moved mtype srcid first s) (quiet s)
quiet-Moved mtype srcid first s = Ensures-returns _ (stay refl, refl, refl, refl, refl)

challenged-Moved :
    (k : Sys) (s c : Client) (trfid srcid : ℕ) (first : Option ℕ) (b : Bool)
    → srcid ≡ 0
    → first ≡ some MsgAttr.challenge
    → s.st ≡ clt_pre_login
    → Kept s c
    → Ensures (Moved MsgType.login_res srcid first s) (challenged k c trfid b)
unfolding challenged note printcon
challenged-Moved k s c trfid srcid first false z f p h =
    Ensures-returns _ (stay h.1, h.0, h.2, h.3, h.4)
challenged-Moved k s c trfid srcid first true z f p h =
    Ensures-bind _ _ (λ r. Ensures-returns _ (challenged_ refl z f p refl, h.0, h.2, h.3, h.4))

logged_in-Moved :
    (k : Sys) (s : Client) (m : MBuf) (x : Attr) (trfid srcid : ℕ)
    → srcid ≡ 0
    → (mbuf_getnextattrib m).0 ≡ some x
    → (x.at == MsgAttr.ok || x.at == MsgAttr.challenge) ≡ true
    → s.st ≡ clt_pre_login
    → Ensures (Moved MsgType.login_res srcid (first_attr m) s) (logged_in k s m x trfid)
unfolding logged_in note printcon first_attr
logged_in-Moved k s m x trfid srcid z f known p =
    Ensures-then _ _ (with_notice-Kept (after m) (printcon imsg s)) (λ s1 h.
      Ensures-if (x.at == MsgAttr.ok) _ _
        (λ ok. Ensures-returns _ (
          admitted refl z (rw f (ap some (type_only x.at MsgAttr.ok ok))) p refl,
          h.0,
          h.2,
          h.3,
          h.4,
        ))
        (λ other. Ensures-bind _ _ (λ b.
          challenged-Moved k s s1 trfid srcid _ b z
            (rw f (ap some (challenge_left x.at known other))) p h)))

zero_only : (n : ℕ) → (n == 0) ≡ true → n ≡ 0
zero_only n h = ground arith

login_res-Moved :
    (k : Sys) (s : Client) (m : MBuf) (srcid trfid : ℕ)
    → Ensures (Moved MsgType.login_res srcid (first_attr m) s) (login_res k s m srcid trfid)
unfolding login_res
login_res-Moved k s m srcid trfid =
    Ensures-if _ _ _
      (λ h.
        let (p, z) = both_true (is_pre_login s.st) (srcid == 0) h in
        Ensures-some ((mbuf_getnextattrib m).0) _ _ (quiet-Moved _ srcid _ s) (λ x f.
          Ensures-if (x.at == MsgAttr.ok || x.at == MsgAttr.challenge) _ _
            (λ known.
              logged_in-Moved k s m x trfid srcid (zero_only srcid z) f known
                (pre_login_only s.st p))
            (λ unknown. quiet-Moved _ srcid _ s)))
      (λ h. quiet-Moved _ srcid _ s)

auth_res-Moved :
    (s : Client) (m : MBuf) (srcid : ℕ)
    → Ensures (Moved MsgType.auth_res srcid (first_attr m) s) (auth_res s m srcid)
unfolding auth_res note printcon
auth_res-Moved s m srcid =
    Ensures-if _ _ _
      (λ h.
        let (p, z) = both_true (is_login_ok s.st) (srcid == 0) h in
        Ensures-some (wanted MsgAttr.ok m) _ _ (quiet-Moved _ srcid _ s) (λ x f.
          Ensures-then _ _ (with_notice-Kept (after m) (printcon auth s)) (λ s1 k.
            Ensures-returns _ (
              authenticated refl (zero_only srcid z) (wanted-first MsgAttr.ok m x f)
                  (login_ok_only s.st p) refl,
              k.0,
              k.2,
              k.3,
              k.4,
            ))))
      (λ h. quiet-Moved _ srcid _ s)

logout_res-Moved :
    (s : Client) (m : MBuf) (srcid : ℕ)
    → Ensures (Moved MsgType.logout_res srcid (first_attr m) s) (logout_res s m srcid)
unfolding logout_res note printcon
logout_res-Moved s m srcid =
    Ensures-if _ _ _
      (λ h.
        let (p, z) = both_true (is_login_ok s.st || is_auth_ok s.st) (srcid == 0) h in
        Ensures-some (wanted MsgAttr.ok m) _ _ (quiet-Moved _ srcid _ s) (λ x f.
          Ensures-then _ _ (with_notice-Kept (after m) (printcon naut s)) (λ s1 k.
            Ensures-returns _ (
              logged_out refl (zero_only srcid z) (wanted-first MsgAttr.ok m x f) p refl,
              k.0,
              k.2,
              k.3,
              k.4,
            ))))
      (λ h. quiet-Moved _ srcid _ s)

other-Same : (s : Client) (m : MBuf) (mtype : ℕ) → Ensures (Same s) (other s m mtype)
unfolding other note printcon
other-Same s m mtype = search (ensures_rules, Same-all) depth 12

login_at :
    (k : Sys) (s : Client) (m : MBuf) (mtype srcid trfid : ℕ)
    → (mtype == MsgType.login_res) ≡ true
    → Ensures (Moved mtype srcid (first_attr m) s) (login_res k s m srcid trfid)
login_at k s m mtype srcid trfid h =
    rw (type_only mtype MsgType.login_res h) (login_res-Moved k s m srcid trfid)

auth_at :
    (s : Client) (m : MBuf) (mtype srcid : ℕ)
    → (mtype == MsgType.auth_res) ≡ true
    → Ensures (Moved mtype srcid (first_attr m) s) (auth_res s m srcid)
auth_at s m mtype srcid h = rw (type_only mtype MsgType.auth_res h) (auth_res-Moved s m srcid)

logout_at :
    (s : Client) (m : MBuf) (mtype srcid : ℕ)
    → (mtype == MsgType.logout_res) ≡ true
    → Ensures (Moved mtype srcid (first_attr m) s) (logout_res s m srcid)
logout_at s m mtype srcid h = rw (type_only mtype MsgType.logout_res h) (logout_res-Moved s m srcid)

auth_err_at :
    (s : Client) (m : MBuf) (mtype srcid : ℕ)
    → (mtype == MsgType.auth_err) ≡ true
    → Ensures (Moved mtype srcid (first_attr m) s) (auth_err s m mtype)
unfolding auth_err
auth_err_at s m mtype srcid h = elim (Bool-cases (is_login_ok s.st)) [
  | inr no_login ↦ rw no_login (Same-Moved mtype srcid _ s _ (other-Same s m mtype))
  | inl login ↦
      (let moved = other-Same (record s { st = clt_pre_login }) m mtype in
        rw login (record {
          at = λ t e.
              let k = moved.at t e in
              (
                rejected (type_only mtype MsgType.auth_err h) (login_ok_only s.st login) k.1,
                k.0,
                k.2,
                k.3,
                k.4,
              );
        }))
]

-- Every case of the `switch`.
pub serve-Moved :
    (k : Sys) (s : Client) (m : MBuf) (mtype srcid trfid : ℕ)
    → Ensures (Moved mtype srcid (first_attr m) s) (serve k s m mtype srcid trfid)
unfolding serve
serve-Moved k s m mtype srcid trfid =
    search
      (
        Ensures-if, Same-Moved, ping-Same, offer_req-Same, getfile_req-Same, ping_res-Same,
        offer_res-Same, getfile_res-Same, peerlist_res-Same, registered-Same, login_at, auth_at,
        logout_at, auth_err_at, other-Same,
      )
      depth 20
