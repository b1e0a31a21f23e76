-- ===== src/Transfer/Matching.antt =====
-- transfer.c, `transfer_match`: the entry that is found, and that it is found again.
use frelay.Common.{ℕ, zero, suc, ◌<◌, ◌≡◌, refl, arith, List, [], ◌∷◌, get_elem?, set}
use frelay.Common.{some, true, false}
use frelay.Transfer.{Transfer, TransferType, is_match, transfer_match}

-- `t` stands at position `i`, and is the first entry that matches.
abbrev pub FirstMatch : TransferType → ℕ → ℕ → List Transfer → ℕ → Transfer → Type 0
FirstMatch type rid oid [] i t = ⊥
FirstMatch type rid oid (x ∷ ts) zero t = (x ≡ t) × (is_match type rid oid t ≡ true)
FirstMatch type rid oid (x ∷ ts) (suc i) t =
    (is_match type rid oid x ≡ false) × FirstMatch type rid oid ts i t

pub transfer_match-first :
    (type : TransferType) (rid oid now : ℕ) (ts : List Transfer) (i : ℕ) (t : Transfer)
    → FirstMatch type rid oid ts i t
    → transfer_match type rid oid now ts ≡ (set ts i (record t { tact = now }), some i)
unfolding transfer_match
transfer_match-first type rid oid now [] i t h = elim h [ ]
transfer_match-first type rid oid now (x ∷ ts) zero t (e, h) = rw (e, h) refl
transfer_match-first type rid oid now (x ∷ ts) (suc i) t (no_match, h) =
    rw (no_match, transfer_match-first type rid oid now ts i t h) refl

pub FirstMatch-get :
    (type : TransferType) (rid oid : ℕ) (ts : List Transfer) (i : ℕ) (t u : Transfer)
    → FirstMatch type rid oid ts i t
    → get_elem? (set ts i u) i ≡ some u
FirstMatch-get type rid oid [] i t u h = elim h [ ]
FirstMatch-get type rid oid (x ∷ ts) zero t u h = refl
FirstMatch-get type rid oid (x ∷ ts) (suc i) t u h = FirstMatch-get type rid oid ts i t u h.1

pub FirstMatch-set :
    (type : TransferType) (rid oid : ℕ) (ts : List Transfer) (i : ℕ) (t u : Transfer)
    → FirstMatch type rid oid ts i t
    → is_match type rid oid u ≡ true
    → FirstMatch type rid oid (set ts i u) i u
FirstMatch-set type rid oid [] i t u h m = elim h [ ]
FirstMatch-set type rid oid (x ∷ ts) zero t u h m = (refl, m)
FirstMatch-set type rid oid (x ∷ ts) (suc i) t u (no_match, h) m =
    (no_match, FirstMatch-set type rid oid ts i t u h m)

pub FirstMatch-is_match :
    (type : TransferType) (rid oid : ℕ) (ts : List Transfer) (i : ℕ) (t : Transfer)
    → FirstMatch type rid oid ts i t
    → is_match type rid oid t ≡ true
FirstMatch-is_match type rid oid [] i t h = elim h [ ]
FirstMatch-is_match type rid oid (x ∷ ts) zero t h = h.1
FirstMatch-is_match type rid oid (x ∷ ts) (suc i) t h = FirstMatch-is_match type rid oid ts i t h.1

-- An entry that matched goes on matching when it is touched.
pub is_match-touched :
    (type : TransferType) (rid oid now : ℕ) (t : Transfer)
    → is_match type rid oid t ≡ true
    → 0 < now
    → is_match type rid oid (record t { tact = now }) ≡ true
unfolding is_match
is_match-touched type rid oid now t h some_time = ground arith
