-- ===== src/UserDb/Lookup.antt =====
-- srvuserdb.c: adding and dropping accounts, seen through the lookup.
use frelay.Common.{ℕ, ◌==◌, ◌≡◌, refl, sym, ap, ◌∙◌}
use frelay.Common.{List, [], ◌∷◌, Option, none, some, Option-cases, Bool-cases, inl, inr}
use frelay.Common.{Bool, true, false, if◌then◌else◌, not}
use frelay.Strings.{str_eq}
use frelay.Strings.Compare.{str_eq_sound}
use frelay.UserDb.{
  User, UserDb, find_user, unlink_user, udb_nameisvalid, udb_lookupname_, udb_addentry_,
  udb_dropentry_, new_user, link_user,
}
use frelay.UserDb.Invariant.{DistinctNames, find-unlink}

abbrev pub is_some {ℓ} : {A : Type ℓ} → Option A → Bool
is_some none = false
is_some (some a) = true

-- An entry can be unlinked exactly if there is one.
unlink-find : (l : List User) (n : List ℕ) → is_some (unlink_user l n) ≡ is_some (find_user l n)
unfolding unlink_user find_user
unlink-find [] n = refl
unlink-find (p ∷ more) n = elim (Bool-cases (str_eq n p.name)) [
  | inl hit ↦ rw hit refl
  | inr miss ↦ elim (Option-cases (unlink_user more n)) [
    | inl gone ↦ rw (miss, gone) (rw gone at (unlink-find more n))
    | inr (l, found) ↦ rw (miss, found) (rw found at (unlink-find more n))
  ]
]

is_some-none {ℓ} : {A : Type ℓ} (o : Option A) → is_some o ≡ false → o ≡ none
is_some-none none h = refl
is_some-none (some a) h = cc

find-missing :
    (l : List User) (n s : List ℕ)
    → find_user l n ≡ none
    → find_user l s ≡ (if str_eq s n then none else find_user l s)
find-missing l n s h = elim (Bool-cases (str_eq s n)) [
  | inl same ↦ rw same (ap (find_user l) (str_eq_sound s n same) ∙ h)
  | inr other ↦ rw other refl
]

-- What a lookup gives after an account was dropped: nothing for its name, and for every other name
-- what it gave before. The drop reports whether there was an account of that name.
pub udb_lookupname_-drop :
    (d : UserDb) (name s : List ℕ)
    → DistinctNames d.userdb
    → (udb_lookupname_ (udb_dropentry_ d name).0 s
        ≡ (if str_eq s name then none else udb_lookupname_ d s))
      × ((udb_dropentry_ d name).1 ≡ is_some (udb_lookupname_ d name))
unfolding udb_lookupname_ udb_dropentry_
udb_lookupname_-drop d name s v = elim (Option-cases (unlink_user d.userdb name)) [
  | inl gone ↦
      (let missing = is_some-none _ (sym (unlink-find d.userdb name) ∙ ap is_some gone) in
        (
          rw (gone, udb_dropentry_) (find-missing d.userdb name s missing),
          rw (gone, udb_dropentry_) (sym (ap is_some missing)),
        ))
  | inr (left, e) ↦ (
    rw (e, udb_dropentry_) (find-unlink d.userdb left name s v e),
    rw (e, udb_dropentry_) (sym (sym (unlink-find d.userdb name) ∙ ap is_some e)),
  )
]

-- What a lookup gives after an entry was added or refused.
abbrev pub looked_up : UserDb → ℕ → List ℕ → List ℕ → List ℕ → Option User
looked_up d id name key s =
    if not (udb_nameisvalid name) then udb_lookupname_ d s else elim (udb_lookupname_ d name) [
      | some p ↦ udb_lookupname_ d s
      | none ↦
          if str_eq s name
          then some (record { id = if id == 0 then d.next_id else id; name = name; key = key })
          else udb_lookupname_ d s
    ]

-- A valid name that is free is added with its key, under the given id or the next one for 0; an
-- invalid or taken name changes nothing. Lookups of all other names are as before.
pub udb_lookupname_-add :
    (d : UserDb) (id : ℕ) (name key s : List ℕ)
    → udb_lookupname_ (udb_addentry_ d id (some name) (some key)).0 s ≡ looked_up d id name key s
unfolding udb_lookupname_ udb_addentry_ link_user find_user new_user
udb_lookupname_-add d id name key s = elim (Bool-cases (udb_nameisvalid name)) [
  | inl good ↦ elim (Option-cases (find_user d.userdb name)) [
    | inl free ↦ rw (good, free) refl
    | inr (p, held) ↦ rw (good, held) refl
  ]
  | inr bad ↦ rw bad refl
]
