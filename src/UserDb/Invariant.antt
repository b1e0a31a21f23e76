-- ===== src/UserDb/Invariant.antt =====
-- srvuserdb.c: the operations on the list keep it well formed, and act on it as on a finite map.
use frelay.Common.{ℕ, ◌-◌, ◌^◌, ◌≤◌, ◌<◌, ◌≡◌, ◌≢◌, refl, sym, ap, arith}
use frelay.Common.{List, [], ◌∷◌, none, some, Option-cases, Bool-cases, ◌⊎◌, inl, inr}
use frelay.Common.{true, false, if◌then◌else◌}
use frelay.Strings.{str_eq}
use frelay.Strings.Compare.{str_eq_self, str_eq_sound}
use frelay.UserDb.{
  User, UserDb, find_user, unlink_user, udb_nameisvalid, udb_lookupname_, udb_addentry_,
  udb_dropentry_, new_user, link_user, Added, added, refused, einval, eexist,
}

abbrev pub Absent : List ℕ → List User → Type 0
Absent n [] = Unit {0}
Absent n (p ∷ more) = (p.name ≢ n) × Absent n more

abbrev pub DistinctNames : List User → Type 0
DistinctNames [] = Unit {0}
DistinctNames (p ∷ more) = Absent p.name more × DistinctNames more

abbrev pub IdsBelow : ℕ → List User → Type 0
IdsBelow n [] = Unit {0}
IdsBelow n (p ∷ more) = ((0 < p.id) × (p.id < n)) × IdsBelow n more

abbrev pub ValidNames : List User → Type 0
ValidNames [] = Unit {0}
ValidNames (p ∷ more) = (udb_nameisvalid p.name ≡ true) × ValidNames more

-- No two accounts share a name, names are valid, and ids are below the next one to be issued.
pub record IsValid (d : UserDb) : Type 0 where
  pub distinct : DistinctNames d.userdb
  pub named : ValidNames d.userdb
  pub below : IdsBelow d.next_id d.userdb
  pub started : 0 < d.next_id

pub find-Absent : (l : List User) (s : List ℕ) → find_user l s ≡ none → Absent s l
unfolding find_user
find-Absent [] s e = tt
find-Absent (p ∷ more) s e =
    ((λ q. ground (arith, str_eq_self s, ap (str_eq s) q)), ground (arith, find-Absent more s))

pub Absent-find : (l : List User) (s : List ℕ) → Absent s l → find_user l s ≡ none
unfolding find_user
Absent-find [] s h = refl
Absent-find (p ∷ more) s (h, hs) = ground (arith, str_eq_sound s p.name, Absent-find more s hs)

pub IdsBelow-mono : (m n : ℕ) (l : List User) → m ≤ n → IdsBelow m l → IdsBelow n l
IdsBelow-mono m n [] h b = tt
IdsBelow-mono m n (p ∷ more) h b = (omega arith, IdsBelow-mono m n more h b.1)

-- How an entry is unlinked: at the head, or behind it.
unlink_cases :
    (p : User) (more left : List User) (n : List ℕ)
    → unlink_user (p ∷ more) n ≡ some left
    → ((p.name ≡ n) × (left ≡ more))
      ⊎ ((l : List User) × (p.name ≢ n) × (unlink_user more n ≡ some l) × (left ≡ p ∷ l))
unfolding unlink_user
unlink_cases p more left n e = elim (Bool-cases (str_eq n p.name)) [
  | inl hit ↦ inl (sym (str_eq_sound n p.name hit), ground arith)
  | inr miss ↦ elim (Option-cases (unlink_user more n)) [
    | inl gone ↦ absurd (ground arith)
    | inr (l, found) ↦
        inr (l, (λ q. ground (arith, str_eq_self n, ap (str_eq n) q)), found, ground arith)
  ]
]

unlink-Absent :
    (l left : List User) (n s : List ℕ) → unlink_user l n ≡ some left → Absent s l → Absent s left
unlink-Absent [] left n s e h = unfold unlink_user in cc
unlink-Absent (p ∷ more) left n s e (h, hs) = elim (unlink_cases p more left n e) [
  | inl (_, el) ↦ rw el hs
  | inr (l, _, found, el) ↦ rw el (h, unlink-Absent more l n s found hs)
]

-- After unlinking a name is gone, and the entries of all other names are as before.
pub find-unlink :
    (l left : List User) (n s : List ℕ)
    → DistinctNames l
    → unlink_user l n ≡ some left
    → find_user left s ≡ (if str_eq s n then none else find_user l s)
find-unlink [] left n s d e = unfold unlink_user in cc
find-unlink (p ∷ more) left n s (d, ds) e = elim (unlink_cases p more left n e) [
  | inl (en, el) ↦ rw (el, ← en) (head_case p more s d)
  | inr (l, ne, found, el) ↦ rw el (tail_case p more l n s ne (find-unlink more l n s ds found))
]
  where
    head_case :
        (p : User) (more : List User) (s : List ℕ)
        → Absent p.name more
        → find_user more s ≡ (if str_eq s p.name then none else find_user (p ∷ more) s)
    head_case p more s d =
        unfold find_user in
        ground (arith, str_eq_sound s p.name, Absent-find more s, Absent-find more p.name d)

    tail_case :
        (p : User) (more l : List User) (n s : List ℕ)
        → p.name ≢ n
        → find_user l s ≡ (if str_eq s n then none else find_user more s)
        → find_user (p ∷ l) s ≡ (if str_eq s n then none else find_user (p ∷ more) s)
    tail_case p more l n s ne ih =
        unfold find_user in ground (arith, ih, str_eq_sound s p.name, str_eq_sound s n)

unlink-valid :
    (l left : List User) (n : List ℕ) (k : ℕ)
    → unlink_user l n ≡ some left
    → DistinctNames l × ValidNames l × IdsBelow k l
    → DistinctNames left × ValidNames left × IdsBelow k left
unlink-valid [] left n k e v = unfold unlink_user in cc
unlink-valid (p ∷ more) left n k e ((d, ds), (v, vs), (b, bs)) =
    elim (unlink_cases p more left n e) [
      | inl (_, el) ↦ rw el (ds, vs, bs)
      | inr (l, _, found, el) ↦
          let (x, y, z) = unlink-valid more l n k found (ds, vs, bs) in
          rw el ((unlink-Absent more l n p.name found d, x), (v, y), (b, z))
    ]

-- Dropping an entry keeps the database well formed, found or not.
udb_dropentry_-IsValid :
    (d : UserDb) (name : List ℕ) → IsValid d → IsValid (udb_dropentry_ d name).0
udb_dropentry_-IsValid d name v = elim (Option-cases (unlink_user d.userdb name)) [
  | inl e ↦ unfold udb_dropentry_ in rw (e, udb_dropentry_) v
  | inr (left, e) ↦
      let (x, y, z) = unlink-valid d.userdb left name d.next_id e (v.distinct, v.named, v.below) in
      unfold udb_dropentry_ in
      rw (e, udb_dropentry_) (record { distinct = x; named = y; below = z; started = v.started })
]

-- What `udb_addentry_` does, case by case.
pub data Adds (d : UserDb) (id : ℕ) (name key : List ℕ) (d' : UserDb) (a : Added) : Type 0 where
  invalid : udb_nameisvalid name ≡ false → d' ≡ d → a ≡ refused einval → Adds d id name key d' a
  taken :
      udb_nameisvalid name ≡ true
      → (p : User) → find_user d.userdb name ≡ some p
      → d' ≡ d
      → a ≡ refused eexist
      → Adds d id name key d' a
  accepted :
      udb_nameisvalid name ≡ true
      → find_user d.userdb name ≡ none
      → d' ≡ link_user d (new_user d id name key)
      → a ≡ added (new_user d id name key)
      → Adds d id name key d' a

pub udb_addentry_-Adds :
    (d : UserDb) (id : ℕ) (name key : List ℕ)
    → let r = udb_addentry_ d id (some name) (some key) in Adds d id name key r.0 r.1
unfolding udb_addentry_ udb_lookupname_
udb_addentry_-Adds d id name key = elim (Bool-cases (udb_nameisvalid name)) [
  | inl good ↦ elim (Option-cases (find_user d.userdb name)) [
    | inl free ↦ rw (good, free) (accepted good free refl refl)
    | inr (p, held) ↦ rw (good, held) (taken good p held refl refl)
  ]
  | inr bad ↦ rw bad (invalid bad refl refl)
]

-- Ids are words that leave room for the counter.
abbrev pub max_id : ℕ
max_id = 2 ^ 64 - 1

pub link-IsValid :
    (d : UserDb) (p : User)
    → IsValid d
    → Absent p.name d.userdb
    → udb_nameisvalid p.name ≡ true
    → 0 < p.id
    → p.id < max_id
    → IsValid (link_user d p)
unfolding link_user
link-IsValid d p v free good pos small = record {
  distinct = (free, v.distinct);
  named = (good, v.named);
  below = (ground arith, IdsBelow-mono d.next_id _ d.userdb (ground arith) v.below);
  started = ground (arith, v.started);
}

-- Adding an entry keeps the database well formed, whether it is accepted or refused.
pub udb_addentry_-IsValid :
    (d : UserDb) (id : ℕ) (name key : List ℕ)
    → IsValid d
    → id < max_id
    → d.next_id < max_id
    → IsValid (udb_addentry_ d id (some name) (some key)).0
unfolding new_user
udb_addentry_-IsValid d id name key v hi hn = elim (udb_addentry_-Adds d id name key) [
  | invalid bad e _ ↦ rw e v
  | taken good p held e _ ↦ rw e v
  | accepted good free e _ ↦ rw e (
      link-IsValid d (new_user d id name key) v (find-Absent d.userdb name free) good
        (ground (arith, v.started)) (ground arith))
]
