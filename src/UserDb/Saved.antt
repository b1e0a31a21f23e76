-- ===== src/UserDb/Saved.antt =====
-- srvuserdb.c: what `udb_save` writes, `udb_load` reads back.
use frelay.Common.{ℕ, zero, suc, ◌-◌, ◌^◌, ◌≤◌, ◌<◌, ◌≡◌, refl, sym, ap, ◌∙◌, arith}
use frelay.Common.{List, [], ◌∷◌, ◌++◌, length, length-append, All, Option, none, some, true, false}
use frelay.Common.{◌==◌, Bool-cases, inl, inr}
use mathlib.Core.Path.{subst}
use frelay.Strings.{str_eq}
use frelay.Strings.Compare.{str_eq_sound}
use frelay.UserDb.{
  User, UserDb, print_users, fgets, to_text, load_line, load_lines, load_content, udb_load,
  udb_save, udb_init, udb_addentry_, udb_lookupname_, find_user, new_user, link_user, line_size,
}
use frelay.UserDb.Invariant.{
  Absent, Absent-find, DistinctNames, IdsBelow, IdsBelow-mono, IsValid, link-IsValid, max_id,
}
use frelay.UserDb.Lines.{
  IsPlain, line_of, Lacks-append, fgets-line, to_text-whole, print_user-line_of, line_of-single,
  line_of-text, length-line_of, parse_line-line_of,
}

-- The accounts of a list are linked one after the other.
abbrev link_all : UserDb → List User → UserDb
link_all d [] = d
link_all d (p ∷ l) = link_all (link_user d p) l

load_line-line_of :
    (d : UserDb) (p : User)
    → IsPlain p
    → find_user d.userdb p.name ≡ none
    → load_line d (to_text (line_of p ++ 10 ∷ [])) ≡ link_user d p
unfolding load_line udb_addentry_ udb_lookupname_ new_user
load_line-line_of d p v free =
    let text = to_text-whole (line_of p ++ 10 ∷ []) (
      Lacks-append 0 (line_of p) (10 ∷ []) (line_of-text p v)
        ((λ e. absurd (omega (arith, e))), tt)) in
    let some_id : (p.id == 0) ≡ false = ground (arith, v.positive) in
    ap (load_line d) text
    ∙ rw (parse_line-line_of p v, load_line) (rw (v.valid, udb_addentry_) (rw (free, some_id) refl))

load_lines-step :
    (fuel : ℕ) (d : UserDb) (s : List ℕ)
    → 0 < length s
    → load_lines (suc fuel) d s
      ≡ load_lines fuel
          (load_line d (to_text (fgets (line_size - 1) s).0))
          (fgets (line_size - 1) s).1
unfolding load_lines
load_lines-step fuel d [] h = absurd (omega arith)
load_lines-step fuel d (c ∷ s) h = refl

-- Each account of `l` has a name that `us` does not have.
abbrev New : List User → List User → Type 0
New us = All (λ q. Absent q.name us)

New-link : (p : User) (us l : List User) → Absent p.name l → New us l → New (p ∷ us) l
New-link p us [] h n = tt
New-link p us (q ∷ l) (other, h) (nq, n) = (((λ e. other (sym e)), nq), New-link p us l h n)

load_lines-print_users :
    (l : List User) (fuel : ℕ) (d : UserDb)
    → length (print_users l) ≤ fuel
    → All IsPlain l
    → DistinctNames l
    → New d.userdb l
    → load_lines fuel d (print_users l) ≡ link_all d l
unfolding print_users load_lines link_user
load_lines-print_users [] zero d room v distinct new = refl
load_lines-print_users [] (suc fuel) d room v distinct new = refl
load_lines-print_users (p ∷ l) zero d room (vp, v) (np, distinct) (free, new) =
    absurd (omega (arith, ap length (print_user-line_of p (print_users l)), more))
  where
    more : 0 < length (line_of p ++ 10 ∷ print_users l)
    more = omega (arith, length-append (line_of p) (10 ∷ print_users l))
load_lines-print_users (p ∷ l) (suc fuel) d room (vp, v) (np, distinct) (free, new) =
    let split = print_user-line_of p (print_users l) in
    let size = length-append (line_of p) (10 ∷ print_users l) in
    let line =
      fgets-line (line_size - 1) (line_of p) (print_users l) (line_of-single p vp)
        (length-line_of p vp) in
    ap (load_lines (suc fuel) d) split
    ∙ load_lines-step fuel d (line_of p ++ 10 ∷ print_users l) (omega (arith, size))
    ∙ ap (λ r. load_lines fuel (load_line d (to_text r.0)) r.1) line
    ∙ ap (λ e. load_lines fuel e (print_users l))
        (load_line-line_of d p vp (Absent-find d.userdb p.name free))
    ∙ load_lines-print_users l fuel (link_user d p) (omega (arith, ap length split, size)) v
        distinct (New-link p d.userdb l np new)

-- The accounts of `l` are found before those that were there.
find-link_all :
    (d : UserDb) (l : List User) (s : List ℕ)
    → DistinctNames l
    → find_user (link_all d l).userdb s
      ≡ elim (find_user l s) [ none ↦ find_user d.userdb s | some p ↦ some p ]
unfolding find_user link_user
find-link_all d [] s distinct = refl
find-link_all d (p ∷ l) s (np, distinct) = elim (Bool-cases (str_eq s p.name)) [
  | inl hit ↦
      (let none_else : find_user l s ≡ none =
          ap (find_user l) (str_eq_sound s p.name hit) ∙ Absent-find l p.name np in
        find-link_all (link_user d p) l s distinct ∙ rw (none_else, hit) refl)
  | inr miss ↦
      (let not_first : (us : List User) → find_user (p ∷ us) s ≡ find_user us s =
          λ us. rw (miss, find_user) refl in
        find-link_all (link_user d p) l s distinct
        ∙ ap (λ o. elim (find_user l s) [ none ↦ o | some q ↦ some q ]) (not_first d.userdb)
        ∙ ap (λ o. elim o [ none ↦ find_user d.userdb s | some q ↦ some q ]) (sym (not_first l)))
]

link_all-IsValid :
    (d : UserDb) (l : List User)
    → IsValid d
    → All IsPlain l
    → DistinctNames l
    → New d.userdb l
    → IdsBelow max_id l
    → IsValid (link_all d l)
unfolding link_user
link_all-IsValid d [] v plain distinct new below = v
link_all-IsValid d (p ∷ l) v (vp, plain) (np, distinct) (free, new) (small, below) =
    link_all-IsValid (link_user d p) l (link-IsValid d p v free vp.valid vp.positive small.1) plain
      distinct (New-link p d.userdb l np new) below

link_all-next_id :
    (d : UserDb) (l : List User) (n : ℕ) → d.next_id ≤ n → IdsBelow n l → (link_all d l).next_id ≤ n
unfolding link_user
link_all-next_id d [] n h below = h
link_all-next_id d (p ∷ l) n h (small, below) =
    link_all-next_id (link_user d p) l n (ground (arith, small.1)) below

Option-eta : (o : Option User) → elim o [ none ↦ none | some p ↦ some p ] ≡ o
Option-eta none = refl
Option-eta (some p) = refl

New-empty : (l : List User) → New [] l
New-empty [] = tt
New-empty (p ∷ l) = (tt, New-empty l)

-- A database that is saved is read back when the server starts again: every name has the account
-- that it had, and no other name has one; the database that is read is well formed, and its counter
-- is not above the one that was saved. The accounts are those that the server accepts and whose
-- lines can be read: names on one line, keys without ends of lines that fit the buffer.
pub udb_init-udb_save :
    (d : UserDb) (s : List ℕ)
    → IsValid d
    → All IsPlain d.userdb
    → d.next_id < 2 ^ 64
    → d.disk.writable ≡ true
    → (udb_lookupname_ (udb_init (udb_save d).disk) s ≡ udb_lookupname_ d s)
      × IsValid (udb_init (udb_save d).disk)
      × ((udb_init (udb_save d).disk).next_id ≤ d.next_id)
unfolding udb_init udb_save udb_load load_content udb_lookupname_ find_user
udb_init-udb_save d s v plain small writable =
    let l = d.userdb in
    let f = (udb_save d).disk in
    let start : UserDb = record { userdb = []; next_id = 1; disk = f } in
    let written : f.content ≡ some (print_users l) = rw (writable, udb_save) refl in
    let loaded : udb_init f ≡ link_all start l =
      ap (load_content start) written
      ∙ load_lines-print_users l (length (print_users l)) start (omega arith) plain v.distinct
          (New-empty l) in
    let below = IdsBelow-mono d.next_id max_id l (omega arith) v.below in
    let fresh : IsValid start = record {
      distinct = tt;
      named = tt;
      below = tt;
      started = omega arith;
    } in
    (
      ap (λ r. find_user r.userdb s) loaded
          ∙ find-link_all start l s v.distinct
          ∙ Option-eta (find_user l s),
      subst IsValid (sym loaded)
          (link_all-IsValid start l fresh plain v.distinct (New-empty l) below),
      subst (λ r. r.next_id ≤ d.next_id) (sym loaded)
          (link_all-next_id start l d.next_id v.started v.below),
    )
