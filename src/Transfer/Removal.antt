-- ===== src/Transfer/Removal.antt =====
-- transfer.c: an entry that was removed is not found any more.
use frelay.Common.{ℕ, ◌≡◌, refl, arith, List, [], ◌∷◌}
use frelay.Common.{Bool, ◌+◌, ◌||◌, ◌&&◌, ◌==◌, ◌⊎◌, sym, ◌∙◌, true_is_not_false}
use frelay.Strings.{strtoull16}
use frelay.Common.{none, true, false, Bool-cases, inl, inr}
use frelay.Transfer.{
  Transfer, TransferType, ttype_offer, ttype_download, same_type, is_match, transfer_match,
  transfer_invalidate, selected, remove_selected, is_star, letter, wild,
}

invalidated-unmatched :
    (type : TransferType) (rid oid : ℕ) (p : Transfer)
    → is_match type rid oid (transfer_invalidate p) ≡ false
unfolding is_match transfer_invalidate
invalidated-unmatched type rid oid p = grind arith

same_type_sound : (a b : TransferType) → same_type a b ≡ true → a ≡ b
same_type_sound ttype_offer ttype_offer h = refl
same_type_sound ttype_offer ttype_download h = cc
same_type_sound ttype_download ttype_offer h = cc
same_type_sound ttype_download ttype_download h = refl

match-selected :
    (t : ℕ) (rids oids : List ℕ) (type : TransferType) (rid oid : ℕ) (p : Transfer)
    → selected t rids oids type rid oid ≡ true
    → selected t rids oids p.type p.rid p.oid ≡ false
    → is_match type rid oid p ≡ false
unfolding is_match selected
match-selected t rids oids type rid oid p h n = elim (Bool-cases (is_match type rid oid p)) [
  | inl hit ↦
      (let kind : type ≡ p.type = same_type_sound type p.type (grind arith) in
        let o : oid ≡ p.oid = grind arith in
        let r : rid ≡ p.rid = grind arith in absurd (grind arith))
  | inr miss ↦ miss
]

not_found :
    (t : ℕ) (rids oids : List ℕ) (type : TransferType) (rid oid now : ℕ) (transfers : List Transfer)
    → selected t rids oids type rid oid ≡ true
    → (transfer_match type rid oid now (remove_selected t rids oids transfers).0).1 ≡ none
unfolding transfer_match remove_selected
not_found t rids oids type rid oid now [] h = refl
not_found t rids oids type rid oid now (p ∷ more) h =
    let ih = not_found t rids oids type rid oid now more h in
    elim (Bool-cases (selected t rids oids p.type p.rid p.oid)) [
      | inl hit ↦ rw (hit, invalidated-unmatched type rid oid p, ih) refl
      | inr miss ↦ rw (miss, match-selected t rids oids type rid oid p h miss, ih) refl
    ]

-- A pattern takes a kind of transfers: any for a star, else the kind of its letter.
abbrev TakesKind : ℕ → TransferType → Type 0
TakesKind t type =
    (t ≡ b'*') ⊎ (((t ≡ b'O') × (type ≡ ttype_offer)) ⊎ ((t ≡ b'D') × (type ≡ ttype_download)))

-- It takes any id for a star, else the one that it spells in base 16.
abbrev TakesId : List ℕ → ℕ → Type 0
TakesId [] id = Path Bool true false
TakesId (c ∷ s) id = (c ≡ b'*') ⊎ ((strtoull16 (c ∷ s)).0 ≡ id)

abbrev Takes : ℕ → List ℕ → List ℕ → TransferType → ℕ → ℕ → Type 0
Takes t rids oids type rid oid = TakesKind t type × TakesId rids rid × TakesId oids oid

-- The list before and after, and how many entries went.
pub data Removed (t : ℕ) (rids oids : List ℕ) : List Transfer → List Transfer → ℕ → Type 0 where
  end_ : Removed t rids oids [] [] 0
  gone :
      {p : Transfer} {l l1 : List Transfer} {n : ℕ}
      → Takes t rids oids p.type p.rid p.oid
      → Removed t rids oids l l1 n
      → Removed t rids oids
          (p ∷ l)
          (record p { rid = 0; oid = 0; tact = 0; fd = none } ∷ l1)
          (n + 1)
  kept :
      {p : Transfer} {l l1 : List Transfer} {n : ℕ}
      → ¬ Takes t rids oids p.type p.rid p.oid
      → Removed t rids oids l l1 n
      → Removed t rids oids (p ∷ l) (p ∷ l1) n

kind_taken :
    (t : ℕ) (type : TransferType) → (is_star t || letter type == t) ≡ true → TakesKind t type
kind_taken t ttype_offer h = elim (Bool-cases (t == b'*')) [
  | inl star ↦ inl (ground arith)
  | inr other ↦ inr (inl (ground arith, refl))
]
kind_taken t ttype_download h = elim (Bool-cases (t == b'*')) [
  | inl star ↦ inl (ground arith)
  | inr other ↦ inr (inr (ground arith, refl))
]

takes_kind :
    (t : ℕ) (type : TransferType) → TakesKind t type → (is_star t || letter type == t) ≡ true
takes_kind t type (inl star) = rw star refl
takes_kind t type (inr (inl (e, k))) = rw (e, k) refl
takes_kind t type (inr (inr (e, k))) = rw (e, k) refl

id_taken : (ids : List ℕ) (id : ℕ) → wild ids id ≡ true → TakesId ids id
id_taken [] id h = cc
id_taken (c ∷ s) id h = elim (Bool-cases (c == b'*')) [
  | inl star ↦ inl (ground arith)
  | inr other ↦ inr (ground arith)
]

takes_id : (ids : List ℕ) (id : ℕ) → TakesId ids id → wild ids id ≡ true
takes_id [] id h = cc
takes_id (c ∷ s) id (inl star) = rw star refl
takes_id (c ∷ s) id (inr e) = elim (Bool-cases (c == b'*')) [
  | inl star ↦ ground arith
  | inr other ↦ ground arith
]

both_true : (a b : Bool) → (a && b) ≡ true → (a ≡ true) × (b ≡ true)
both_true true true h = (refl, refl)
both_true true false h = cc
both_true false b h = cc

selected-Takes :
    (t : ℕ) (rids oids : List ℕ) (type : TransferType) (rid oid : ℕ)
    → selected t rids oids type rid oid ≡ true
    → Takes t rids oids type rid oid
unfolding selected
selected-Takes t rids oids type rid oid h =
    let (kr, o) = both_true ((is_star t || letter type == t) && wild rids rid) (wild oids oid) h in
    let (k, r) = both_true (is_star t || letter type == t) (wild rids rid) kr in
    (kind_taken t type k, id_taken rids rid r, id_taken oids oid o)

Takes-selected :
    (t : ℕ) (rids oids : List ℕ) (type : TransferType) (rid oid : ℕ)
    → Takes t rids oids type rid oid
    → selected t rids oids type rid oid ≡ true
unfolding selected
Takes-selected t rids oids type rid oid (k, r, o) =
    rw (takes_kind t type k, takes_id rids rid r, takes_id oids oid o) refl

remove_selected-Removed :
    (t : ℕ) (rids oids : List ℕ) (transfers : List Transfer)
    → Removed t rids oids transfers
        (remove_selected t rids oids transfers).0
        (remove_selected t rids oids transfers).1
unfolding remove_selected transfer_invalidate
remove_selected-Removed t rids oids [] = end_
remove_selected-Removed t rids oids (p ∷ more) =
    let ih = remove_selected-Removed t rids oids more in
    elim (Bool-cases (selected t rids oids p.type p.rid p.oid)) [
      | inl hit ↦ rw hit (gone (selected-Takes t rids oids p.type p.rid p.oid hit) ih)
      | inr miss ↦ rw miss (
          kept
            (λ k. true_is_not_false (sym (Takes-selected t rids oids p.type p.rid p.oid k) ∙ miss))
            ih)
    ]

-- The entries whose kind and ids a pattern takes, and no others, are invalidated and counted: all
-- others stay as they are, in their places. Afterwards no entry is found under a kind and ids that
-- the pattern takes.
pub transfer_match-Removed :
    (t : ℕ) (rids oids : List ℕ) (transfers : List Transfer) (type : TransferType) (rid oid now : ℕ)
    → Takes t rids oids type rid oid
    → Removed t rids oids transfers
        (remove_selected t rids oids transfers).0
        (remove_selected t rids oids transfers).1
      × ((transfer_match type rid oid now (remove_selected t rids oids transfers).0).1 ≡ none)
transfer_match-Removed t rids oids transfers type rid oid now k = (
  remove_selected-Removed t rids oids transfers,
  not_found t rids oids type rid oid now transfers (Takes-selected t rids oids type rid oid k),
)
