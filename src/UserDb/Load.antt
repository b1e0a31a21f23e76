-- ===== src/UserDb/Load.antt =====
-- srvuserdb.c: what reading the file and issuing ids leave.
use frelay.Common.{◌+◌, ◌%◌, ◌^◌, sym, ap, ◌∙◌, ◌⊎◌, Bool-cases}
use mathlib.Core.Path.{subst}
use frelay.Common.{ℕ, zero, suc, ◌-◌, ◌<◌, ◌≡◌, refl, arith}
use frelay.Common.{List, [], ◌∷◌, length, Option, none, some, Option-cases, inl, inr}
use frelay.UserDb.{
  udb_lookupname_, find_user, udb_nameisvalid, User, UserDb, udb_addentry_, new_user, link_user,
  fgets, line_size, to_text, parse_line, load_line, load_lines, load_content, udb_load, udb_init,
  udb_gettempid, Disk,
}
use frelay.UserDb.Invariant.{
  DistinctNames, ValidNames, IdsBelow, IdsBelow-mono, IsValid, find-Absent, invalid, taken,
  accepted, udb_addentry_-Adds, max_id,
}

-- What is left of `IsValid` when the file may hold any ids: no two accounts share a name.
pub record IsKeyed (d : UserDb) : Type 0 where
  pub distinct : DistinctNames d.userdb
  pub named : ValidNames d.userdb

udb_addentry_-IsKeyed :
    (d : UserDb) (id : ℕ) (name key : List ℕ)
    → IsKeyed d
    → IsKeyed (udb_addentry_ d id (some name) (some key)).0
unfolding new_user link_user
udb_addentry_-IsKeyed d id name key v = elim (udb_addentry_-Adds d id name key) [
  | invalid bad e _ ↦ rw e v
  | taken good p held e _ ↦ rw e v
  | accepted good free e _ ↦
      rw e (record {
        distinct = (find-Absent d.userdb name free, v.distinct);
        named = (good, v.named);
      })
]

load_lines-IsKeyed : (f : ℕ) (d : UserDb) (s : List ℕ) → IsKeyed d → IsKeyed (load_lines f d s)
unfolding load_lines
load_lines-IsKeyed zero d s v = v
load_lines-IsKeyed (suc f) d [] v = v
load_lines-IsKeyed (suc f) d (c ∷ s) v =
    let l = fgets (line_size - 1) (c ∷ s) in
    load_lines-IsKeyed f (load_line d (to_text l.0)) l.1 (load_line-IsKeyed d (to_text l.0) v)
  where
    load_line-IsKeyed : (d : UserDb) (line : List ℕ) → IsKeyed d → IsKeyed (load_line d line)
    load_line-IsKeyed d line v = elim (Option-cases (parse_line line)) [
      | inl e ↦ unfold load_line in rw (e, load_line) v
      | inr (l, e) ↦
          unfold load_line in rw (e, load_line) (udb_addentry_-IsKeyed d l.id l.name l.key v)
    ]

-- Whatever the file holds, reading it leaves at most one account of each name, all names valid.
pub udb_load-IsKeyed : (d : UserDb) → IsKeyed d → IsKeyed (udb_load d)
unfolding udb_load load_content
udb_load-IsKeyed d v = load_cases d.userdb refl
  where
    from_disk : (o : Option (List ℕ)) → IsKeyed (load_content d o)
    from_disk none = v
    from_disk (some s) = load_lines-IsKeyed (length s) d s v

    load_cases : (l : List User) → d.userdb ≡ l → IsKeyed (udb_load d)
    load_cases [] e = rw (e, udb_load) (from_disk d.disk.content)
    load_cases (p ∷ more) e = rw (e, udb_load) v

udb_init-IsKeyed : (f : Disk) → IsKeyed (udb_init f)
unfolding udb_init
udb_init-IsKeyed f = udb_load-IsKeyed _ (record { distinct = tt; named = tt })

issued :
    (d : UserDb)
    → IsValid (udb_load d)
    → (udb_load d).next_id < max_id
    → IdsBelow (udb_gettempid d).1 (udb_gettempid d).0.userdb
      × (0 < (udb_gettempid d).1)
      × ((udb_gettempid d).1 < (udb_gettempid d).0.next_id)
      × ((udb_gettempid d).0.userdb ≡ (udb_load d).userdb)
      × IsValid (udb_gettempid d).0
unfolding udb_gettempid
issued d v small = (
  v.below,
  v.started,
  omega arith,
  refl,
  record {
    distinct = v.distinct;
    named = v.named;
    below = IdsBelow-mono _ _ (udb_load d).userdb (omega arith) v.below;
    started = omega arith;
  },
)

-- With an empty list a line is refused, whatever the counter is, or it makes an entry.
line_cases :
    (d : UserDb) (line : List ℕ)
    → d.userdb ≡ []
    → ((x : ℕ) → load_line (record d { next_id = x }) line ≡ record d { next_id = x })
      ⊎ ((p : User) × (more : List User) × ((load_line d line).userdb ≡ p ∷ more))
unfolding load_line udb_addentry_ udb_lookupname_ find_user link_user
line_cases d line none_yet = elim (Option-cases (parse_line line)) [
  | inl bad ↦ inl (λ x. rw (bad, load_line) refl)
  | inr (l, good) ↦ elim (Bool-cases (udb_nameisvalid l.name)) [
    | inr bad ↦ inl (λ x. rw (good, load_line) (rw bad refl))
    | inl valid ↦
        (let free : find_user d.userdb l.name ≡ none = ap (λ us. find_user us l.name) none_yet in
          inr
            (new_user d l.id l.name l.key, d.userdb, rw (good, load_line) (rw (valid, free) refl)))
  ]
]

line-keeps :
    (d : UserDb) (line : List ℕ) (p : User) (more : List User)
    → d.userdb ≡ p ∷ more
    → (q : User) × (rest : List User) × ((load_line d line).userdb ≡ q ∷ rest)
unfolding load_line link_user
line-keeps d line p more h = elim (Option-cases (parse_line line)) [
  | inl bad ↦ (p, more, rw (bad, load_line) h)
  | inr (l, good) ↦ elim (udb_addentry_-Adds d l.id l.name l.key) [
    | invalid b e _ ↦ (p, more, rw (good, load_line) (ap (λ u. u.userdb) e ∙ h))
    | taken b u f e _ ↦ (p, more, rw (good, load_line) (ap (λ u. u.userdb) e ∙ h))
    | accepted b f e _ ↦
        (new_user d l.id l.name l.key, d.userdb, rw (good, load_line) (ap (λ u. u.userdb) e))
  ]
]

lines-keep :
    (fuel : ℕ) (d : UserDb) (s : List ℕ) (p : User) (more : List User)
    → d.userdb ≡ p ∷ more
    → (q : User) × (rest : List User) × ((load_lines fuel d s).userdb ≡ q ∷ rest)
unfolding load_lines
lines-keep zero d s p more h = (p, more, h)
lines-keep (suc fuel) d [] p more h = (p, more, h)
lines-keep (suc fuel) d (c ∷ s) p more h =
    let (line, rest) = fgets (line_size - 1) (c ∷ s) in
    let (q, l, k) = line-keeps d (to_text line) p more h in lines-keep fuel _ rest q l k

-- A file that has given no entry gives none again, whatever the counter is.
lines-again :
    (fuel : ℕ) (d : UserDb) (s : List ℕ)
    → d.userdb ≡ []
    → (load_lines fuel d s).userdb ≡ []
    → (x : ℕ) → load_lines fuel (record d { next_id = x }) s ≡ record d { next_id = x }
unfolding load_lines
lines-again zero d s h k x = refl
lines-again (suc fuel) d [] h k x = refl
lines-again (suc fuel) d (c ∷ s) h k x =
    let (line, rest) = fgets (line_size - 1) (c ∷ s) in
    elim (line_cases d (to_text line) h) [
      | inl idle ↦
          (let k1 : (load_lines fuel d rest).userdb ≡ [] =
              ap (λ u. (load_lines fuel u rest).userdb) (sym (idle d.next_id)) ∙ k in
            ap (λ u. load_lines fuel u rest) (idle x) ∙ lines-again fuel d rest h k1 x)
      | inr (p, more, made) ↦
          (let (q, l, full) = lines-keep fuel _ rest p more made in
            absurd (cons_not_nil (sym full ∙ k)))
    ]
  where
    cons_not_nil : {q : User} {l : List User} → Path (List User) (q ∷ l) [] → ⊥
    cons_not_nil e = cc

load_full : (u : UserDb) (p : User) (more : List User) → u.userdb ≡ p ∷ more → udb_load u ≡ u
load_full u p more e =
    unfold udb_load in
    subst (λ l. udb_load (record u { userdb = l }) ≡ record u { userdb = l }) (sym e) refl

load_empty : (u : UserDb) → u.userdb ≡ [] → udb_load u ≡ load_content u u.disk.content
load_empty u e =
    unfold udb_load in
    subst
      (λ l.
        udb_load (record u { userdb = l }) ≡ load_content (record u { userdb = l }) u.disk.content)
      (sym e) refl

content_again :
    (d : UserDb) (o : Option (List ℕ))
    → d.userdb ≡ []
    → (load_content d o).userdb ≡ []
    → (x : ℕ) → load_content (record d { next_id = x }) o ≡ record d { next_id = x }
unfolding load_content
content_again d none h k x = refl
content_again d (some s) h k x = lines-again (length s) d s h k x

-- After a load, another one changes nothing, whatever the counter has become.
load-again :
    (d : UserDb) (x : ℕ)
    → udb_load (record (udb_load d) { next_id = x }) ≡ record (udb_load d) { next_id = x }
load-again d x = loaded (udb_load d).userdb refl
  where
    was_empty : (udb_load d).userdb ≡ [] → (l : List User) → d.userdb ≡ l → d.userdb ≡ []
    was_empty e [] h = h
    was_empty e (p ∷ more) h = sym (ap (λ u. u.userdb) (load_full d p more h)) ∙ e

    loaded :
        (l : List User)
        → (udb_load d).userdb ≡ l
        → udb_load (record (udb_load d) { next_id = x }) ≡ record (udb_load d) { next_id = x }
    loaded (p ∷ more) e = load_full (record (udb_load d) { next_id = x }) p more e
    loaded [] e =
        let none_yet = was_empty e d.userdb refl in
        let k = sym (ap (λ u. u.userdb) (load_empty d none_yet)) ∙ e in
        let again = content_again d d.disk.content none_yet k in
        let same : udb_load d ≡ d = load_empty d none_yet ∙ again d.next_id in
        subst (λ u. udb_load (record u { next_id = x }) ≡ record u { next_id = x }) (sym same)
          (load_empty (record d { next_id = x }) none_yet ∙ again x)

-- The counter hands out an id above every id of the list, which stays as it was read from the file,
-- and leaves the database well formed. The next call hands out the next number, also where the list
-- is empty and the file is read once more.
pub udb_gettempid-fresh :
    (d : UserDb)
    → IsValid (udb_load d)
    → (udb_load d).next_id < max_id
    → IdsBelow (udb_gettempid d).1 (udb_gettempid d).0.userdb
      × (0 < (udb_gettempid d).1)
      × ((udb_gettempid d).0.userdb ≡ (udb_load d).userdb)
      × IsValid (udb_gettempid d).0
      × ((udb_gettempid (udb_gettempid d).0).1 ≡ (udb_gettempid d).1 + 1)
unfolding udb_gettempid
udb_gettempid-fresh d v small =
    let x = ((udb_load d).next_id + 1) % 2 ^ 64 in
    let kept = issued d v small in
    (kept.0, kept.1, refl, kept.4, ap (λ u. u.next_id) (load-again d x) ∙ omega arith)
