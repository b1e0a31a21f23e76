-- ===== src/Transfer/Names.antt =====
-- transfer.c, `make_filenames` with `no_clobber`: the names of a new download.
use frelay.Common.{ℕ, zero, suc, ◌+◌, ◌<◌, ◌≡◌, ◌≢◌, refl, sym, ap, ◌∙◌, arith, List, [], ◌∷◌, ◌++◌}
use frelay.Common.{length, Option, none, some, Bool-cases, Option-cases, ◌⊎◌, inl, inr, true}
use frelay.Common.{◌==◌, ◌&&◌, false, true_is_not_false}
use mathlib.Core.List.{append-nil}
use mathlib.Core.Path.{subst}
use frelay.Transfer.{Transfer}
use frelay.Transfer.FileAccess.{
  FileSys, split_ext, part_name, numbered, try_names, name_rounds, fresh_names, make_filenames,
}

-- Nothing is lost where the extension is split off.
split_ext-append : (s : List ℕ) → (split_ext s).0 ++ (split_ext s).1 ≡ s
unfolding split_ext
split_ext-append [] = refl
split_ext-append (c ∷ s) = elim (Bool-cases (c == b'.' && length (split_ext s).1 == 0)) [
  | inl dot ↦ rw dot refl
  | inr other ↦ rw other (ap (λ t. c ∷ t) (split_ext-append s))
]

-- The extension is empty where there is no dot, else it is the last dot and what stands behind it.
abbrev NoDots : List ℕ → Type 0
NoDots [] = Unit {0}
NoDots (c ∷ s) = (c ≢ b'.') × NoDots s

abbrev IsExt : List ℕ → List ℕ → Type 0
IsExt stem ext = ((ext ≡ []) × NoDots stem) ⊎ ((e : List ℕ) × (ext ≡ b'.' ∷ e) × NoDots e)

split_ext-IsExt : (s : List ℕ) → IsExt (split_ext s).0 (split_ext s).1
unfolding split_ext
split_ext-IsExt [] = inl (refl, tt)
split_ext-IsExt (c ∷ s) = elim (Bool-cases (c == b'.' && length (split_ext s).1 == 0)) [
  | inl dot ↦ rw dot (inr (s, ap (λ x. x ∷ s) (is_dot c _ dot), last c s dot (split_ext-IsExt s)))
  | inr more ↦ rw more (elim (split_ext-IsExt s) [
    | inl (none_yet, bare) ↦ inl (none_yet, (no_dot c _ none_yet more, bare))
    | inr e ↦ inr e
  ])
]
  where
    is_dot : (c : ℕ) (ext : List ℕ) → (c == b'.' && length ext == 0) ≡ true → c ≡ b'.'
    is_dot c ext h = grind arith

    no_dot : (c : ℕ) (ext : List ℕ) → ext ≡ [] → (c == b'.' && length ext == 0) ≡ false → c ≢ b'.'
    no_dot c ext e h d =
        let t : (c == b'.' && length ext == 0) ≡ true = rw (d, e) refl in
        true_is_not_false (sym t ∙ h)

    last :
        (c : ℕ) (s : List ℕ)
        → (c == b'.' && length (split_ext s).1 == 0) ≡ true
        → IsExt (split_ext s).0 (split_ext s).1
        → NoDots s
    last c s h (inl (e, bare)) =
        subst NoDots
          (sym (append-nil (split_ext s).0)
            ∙ ap (λ x. (split_ext s).0 ++ x) (sym e)
            ∙ split_ext-append s)
          bare
    last c s h (inr (e, full, _)) = absurd (grind (arith, ap (λ x. length x) full))

-- The name with a number, or that of its partial file, cannot be created.
abbrev Blocked : FileSys → List ℕ → List ℕ → ℕ → Type 0
Blocked k stem ext i =
    (k.created (numbered stem ext i) ≡ none) ⊎ (k.created (part_name (numbered stem ext i)) ≡ none)

-- `n` numbers from `i` on.
abbrev AllBlocked : FileSys → List ℕ → List ℕ → ℕ → ℕ → Type 0
AllBlocked k stem ext i zero = Unit {0}
AllBlocked k stem ext i (suc n) = Blocked k stem ext i × AllBlocked k stem ext (i + 1) n

-- Of the `n` numbers from `i` on, the names whose file could be created, and had to be unlinked.
abbrev unlinked_of : FileSys → List ℕ → List ℕ → ℕ → ℕ → List (List ℕ)
unlinked_of k stem ext i zero = []
unlinked_of k stem ext i (suc n) =
    let rest = unlinked_of k stem ext (i + 1) n in
    elim (k.created (numbered stem ext i)) [ none ↦ rest | some fd0 ↦ numbered stem ext i ∷ rest ]

-- What a round that is passed over adds to what the later ones give.
abbrev passed :
    FileSys
    → List ℕ
    → List ℕ
    → ℕ
    → List ℕ × Option ℕ × List (List ℕ)
    → List ℕ × Option ℕ × List (List ℕ)
passed k stem ext i r = (
  r.0,
  r.1,
  elim (k.created (numbered stem ext i)) [ none ↦ r.2 | some fd0 ↦ numbered stem ext i ∷ r.2 ],
)

try_names-passed :
    (k : FileSys) (stem ext : List ℕ) (left i : ℕ)
    → Blocked k stem ext i
    → try_names k stem ext (suc left) i ≡ passed k stem ext i (try_names k stem ext left (i + 1))
unfolding try_names
try_names-passed k stem ext left i b = elim (Option-cases (k.created (numbered stem ext i))) [
  | inl no_name ↦ rw (no_name, try_names) refl
  | inr (fd0, name) ↦ elim b [
    | inl no_name ↦ rw (no_name, try_names) refl
    | inr no_part ↦ rw (name, try_names) (rw no_part refl)
  ]
]

-- Both files of a number have been created, and those of the `before` numbers from `i` on not.
pub record Created (k : FileSys) (stem ext : List ℕ) (left i : ℕ)
    (r : List ℕ × Option ℕ × List (List ℕ)) : Type 0 where
  pub before : ℕ
  pub in_time : before < left
  pub skipped : AllBlocked k stem ext i before
  pub fd0 : ℕ
  pub name_made : k.created (numbered stem ext (i + before)) ≡ some fd0
  pub fd1 : ℕ
  pub part_made : k.created (part_name (numbered stem ext (i + before))) ≡ some fd1
  pub given : r ≡ (numbered stem ext (i + before), some fd1, unlinked_of k stem ext i before)

abbrev Found : FileSys → List ℕ → List ℕ → ℕ → ℕ → List ℕ × Option ℕ × List (List ℕ) → Type 0
Found k stem ext left i r =
    Created k stem ext left i r
    ⊎ (AllBlocked k stem ext i left × (r.1 ≡ none) × (r.2 ≡ unlinked_of k stem ext i left))

-- A blocked number is passed over.
Created-skip :
    (k : FileSys) (stem ext : List ℕ) (left i : ℕ) (r : List ℕ × Option ℕ × List (List ℕ))
    → Blocked k stem ext i
    → Found k stem ext left (i + 1) r
    → Found k stem ext (suc left) i (passed k stem ext i r)
Created-skip k stem ext left i r b (inr (all, f, g)) =
    inr ((b, all), f, ap (λ l. (passed k stem ext i (r.0, r.1, l)).2) g)
Created-skip k stem ext left i r b (inl c) =
    let next : (i + 1) + c.before ≡ i + suc c.before = omega arith in
    inl (record {
      before = suc c.before;
      in_time = omega (arith, c.in_time);
      skipped = (b, c.skipped);
      fd0 = c.fd0;
      name_made = subst (λ j. k.created (numbered stem ext j) ≡ some c.fd0) next c.name_made;
      fd1 = c.fd1;
      part_made =
          subst (λ j. k.created (part_name (numbered stem ext j)) ≡ some c.fd1) next c.part_made;
      given =
          ap (passed k stem ext i) c.given
          ∙ ap (λ j. (numbered stem ext j, some c.fd1, unlinked_of k stem ext i (suc c.before)))
              next;
    })

try_names-Created :
    (k : FileSys) (stem ext : List ℕ) (left i : ℕ)
    → Found k stem ext left i (try_names k stem ext left i)
unfolding try_names
try_names-Created k stem ext zero i = inr (tt, refl, refl)
try_names-Created k stem ext (suc left) i = elim (Option-cases (k.created (numbered stem ext i))) [
  | inl no_name ↦ blocked (try_names-Created k stem ext left (i + 1)) (inl no_name)
  | inr (fd0, name) ↦ elim (Option-cases (k.created (part_name (numbered stem ext i)))) [
    | inl no_part ↦ blocked (try_names-Created k stem ext left (i + 1)) (inr no_part)
    | inr (fd1, part) ↦ inl (record {
      before = 0;
      in_time = omega arith;
      skipped = tt;
      fd0 = fd0;
      name_made = rw plus_zero name;
      fd1 = fd1;
      part_made = rw plus_zero part;
      given =
          rw (name, try_names) (rw part refl)
          ∙ ap (λ j. (numbered stem ext j, some fd1, [])) (sym plus_zero);
    })
  ]
]
  where
    plus_zero : i + 0 ≡ i
    plus_zero = omega arith

    blocked :
        Found k stem ext left (i + 1) (try_names k stem ext left (i + 1))
        → Blocked k stem ext i
        → Found k stem ext (suc left) i (try_names k stem ext (suc left) i)
    blocked rest b =
        subst (Found k stem ext (suc left) i) (sym (try_names-passed k stem ext left i b))
          (Created-skip k stem ext left i _ b rest)

-- The names and the descriptor that a download got, and what was unlinked for it.
pub record HasNames (k : FileSys) (s : List ℕ) (rounds : ℕ) (r : Transfer × List (List ℕ))
    : Type 0 where
  pub stem : List ℕ
  pub ext : List ℕ
  pub whole : stem ++ ext ≡ s
  pub extension : IsExt stem ext
  pub skipped : ℕ
  pub in_time : skipped < rounds
  pub all_blocked : AllBlocked k stem ext 1 skipped
  pub fd0 : ℕ
  pub name_made : k.created (numbered stem ext (1 + skipped)) ≡ some fd0
  pub fd1 : ℕ
  pub part_made : k.created (part_name (numbered stem ext (1 + skipped))) ≡ some fd1
  pub name : r.0.name ≡ some (numbered stem ext (1 + skipped))
  pub partname : r.0.partname ≡ some (part_name (numbered stem ext (1 + skipped)))
  pub fd : r.0.fd ≡ some fd1
  pub unlinked : r.1 ≡ unlinked_of k stem ext 1 skipped

-- No number gives a name.
pub record NoNames (k : FileSys) (s : List ℕ) (rounds : ℕ) (r : Transfer × List (List ℕ))
    : Type 0 where
  pub stem : List ℕ
  pub ext : List ℕ
  pub whole : stem ++ ext ≡ s
  pub extension : IsExt stem ext
  pub all_blocked : AllBlocked k stem ext 1 rounds
  pub fd : r.0.fd ≡ none
  pub unlinked : r.1 ≡ unlinked_of k stem ext 1 rounds

fresh_names-HasNames :
    (k : FileSys) (d : Transfer) (s : List ℕ) (rounds : ℕ)
    → HasNames k s rounds (fresh_names rounds k d s) ⊎ NoNames k s rounds (fresh_names rounds k d s)
unfolding fresh_names
fresh_names-HasNames k d s rounds =
    elim (try_names-Created k (split_ext s).0 (split_ext s).1 rounds 1) [
      | inr (all, f, g) ↦ inr (record {
        stem = (split_ext s).0;
        ext = (split_ext s).1;
        whole = split_ext-append s;
        extension = split_ext-IsExt s;
        all_blocked = all;
        fd = f;
        unlinked = g;
      })
      | inl c ↦ inl (record {
        stem = (split_ext s).0;
        ext = (split_ext s).1;
        whole = split_ext-append s;
        extension = split_ext-IsExt s;
        skipped = c.before;
        in_time = c.in_time;
        all_blocked = c.skipped;
        fd0 = c.fd0;
        name_made = c.name_made;
        fd1 = c.fd1;
        part_made = c.part_made;
        name = ap (λ r. some r.0) c.given;
        partname = ap (λ r. some (part_name r.0)) c.given;
        fd = ap (λ r. r.1) c.given;
        unlinked = ap (λ r. r.2) c.given;
      })
    ]

-- A download that must not clobber a file gets the first numbered name, the number standing before
-- the last dot or, without one, at the end, of which both the file and the partial file can be
-- created anew, and the descriptor of the partial file, which is open. It gets no descriptor only if
-- of every number, up to the last that an `int` allows, one of the two files cannot be created. Of
-- the numbers passed over, exactly the files that were created are unlinked again.
pub make_filenames-HasNames :
    (k : FileSys) (d : Transfer) (s : List ℕ)
    → HasNames k s name_rounds (make_filenames k d s true)
      ⊎ NoNames k s name_rounds (make_filenames k d s true)
unfolding make_filenames
make_filenames-HasNames k d s = fresh_names-HasNames k d s name_rounds
