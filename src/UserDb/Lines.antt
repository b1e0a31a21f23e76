-- ===== src/UserDb/Lines.antt =====
-- srvuserdb.c: a line of the file as it is written, and what reading makes of it.
use frelay.Common.{ℕ, zero, suc, ◌^◌, ◌≤◌, ◌<◌, ◌≡◌, ◌≢◌, refl, sym, ap, ◌∙◌, arith}
use frelay.Common.{List, [], ◌∷◌, ◌++◌, length, length-append, All, Option, none, some, true, false}
use frelay.Common.{◌==◌}
use mathlib.Core.List.{append_assoc, append-nil}
use frelay.Strings.{split_at, hex_value, strtoull16}
use frelay.Strings.Hex.{
  IsDigit, IsDigit-hex_value, hex_word-IsDigit, length-hex_word, strtoull16-hex_word,
}
use frelay.UserDb.{
  User, hex_word, print_user, fgets, to_text, cut_line, cut_at, parse_fields, parse_line,
  udb_nameisvalid, some_line_matches, line_matches, all_name_chars, is_name_char,
}

abbrev Lacks : ℕ → List ℕ → Type 0
Lacks c = All (λ x. x ≢ c)

pub Lacks-append : (c : ℕ) (xs ys : List ℕ) → Lacks c xs → Lacks c ys → Lacks c (xs ++ ys)
Lacks-append c [] ys h g = g
Lacks-append c (x ∷ xs) ys (n, h) g = (n, Lacks-append c xs ys h g)

-- One line is taken from the file.
pub fgets-line :
    (room : ℕ) (line rest : List ℕ)
    → Lacks 10 line
    → length line < room
    → fgets room (line ++ 10 ∷ rest) ≡ (line ++ 10 ∷ [], rest)
unfolding fgets
fgets-line zero line rest h fits = absurd (omega arith)
fgets-line (suc room) [] rest h fits = refl
fgets-line (suc room) (c ∷ line) rest (n, h) fits =
    let other : (c == 10) ≡ false = ground arith in
    rw (other, fgets-line room line rest h (omega arith)) refl

pub to_text-whole : (s : List ℕ) → Lacks 0 s → to_text s ≡ s
unfolding to_text
to_text-whole [] h = refl
to_text-whole (c ∷ s) (n, h) =
    let other : (c == 0) ≡ false = ground arith in rw (other, to_text-whole s h) refl

split_at-found :
    (c : ℕ) (front back : List ℕ)
    → Lacks c front
    → split_at c (front ++ c ∷ back) ≡ some (front, back)
unfolding split_at
split_at-found c [] back h = let same : (c == c) ≡ true = ground arith in rw same refl
split_at-found c (x ∷ front) back (n, h) =
    let other : (x == c) ≡ false = ground arith in rw (other, split_at-found c front back h) refl

split_at-missing : (c : ℕ) (s : List ℕ) → Lacks c s → split_at c s ≡ none
unfolding split_at
split_at-missing c [] h = refl
split_at-missing c (x ∷ s) (n, h) =
    let other : (x == c) ≡ false = ground arith in rw (other, split_at-missing c s h) refl

cut_line-key : (key : List ℕ) → Lacks 13 key → Lacks 10 key → cut_line (key ++ 10 ∷ []) ≡ key
unfolding cut_line cut_at
cut_line-key key no_return no_feed =
    let no_13 =
      split_at-missing 13 (key ++ 10 ∷ [])
        (Lacks-append 13 key (10 ∷ []) no_return ((λ e. absurd (omega (arith, e))), tt)) in
    rw (no_13, cut_line) (rw (split_at-found 10 key [] no_feed, cut_at) refl)

-- A valid name of one line has word characters only, and at most 31.
abbrev IsWord : List ℕ → Type 0
IsWord = All (λ c. is_name_char c ≡ true)

all_name_chars-IsWord : (s : List ℕ) → all_name_chars s ≡ true → IsWord s
unfolding all_name_chars
all_name_chars-IsWord [] h = tt
all_name_chars-IsWord (c ∷ s) h = (ground arith, all_name_chars-IsWord s (ground arith))

some_line_matches-single :
    (seen s : List ℕ) → Lacks 10 s → some_line_matches seen s ≡ line_matches (seen ++ s)
unfolding some_line_matches
some_line_matches-single seen [] h = ap line_matches (sym (append-nil seen))
some_line_matches-single seen (c ∷ s) (n, h) =
    let other : (c == 10) ≡ false = ground arith in
    rw other (
      some_line_matches-single (seen ++ c ∷ []) s h
      ∙ ap line_matches (append_assoc seen (c ∷ []) s))

udb_nameisvalid-IsWord :
    (s : List ℕ) → udb_nameisvalid s ≡ true → Lacks 10 s → IsWord s × (length s ≤ 31)
unfolding udb_nameisvalid line_matches
udb_nameisvalid-IsWord s good single =
    let h = sym (some_line_matches-single [] s single) ∙ good in
    (all_name_chars-IsWord s (ground (arith, h)), ground (arith, h))

IsWord-Lacks : (c : ℕ) (s : List ℕ) → is_name_char c ≡ false → IsWord s → Lacks c s
IsWord-Lacks c [] other h = tt
IsWord-Lacks c (x ∷ s) other (hx, h) =
    ((λ e. absurd (ground (arith, ap is_name_char e))), IsWord-Lacks c s other h)

IsDigit-Lacks : (c : ℕ) (s : List ℕ) → hex_value c ≡ none → All IsDigit s → Lacks c s
IsDigit-Lacks c [] other h = tt
IsDigit-Lacks c (x ∷ s) other (hx, h) =
    let (v, ev) = IsDigit-hex_value x hx in
    ((λ e. none≢some (sym other ∙ sym (ap hex_value e) ∙ ev)), IsDigit-Lacks c s other h)
  where
    none≢some : {v : ℕ} → Path (Option ℕ) none (some v) → ⊥
    none≢some h = cc

-- An account whose line can be read back: the counter gives such ids, the name is valid and stands
-- on one line, and the key has no terminator and no end of a line, and fits the buffer.
pub record IsPlain (p : User) : Type 0 where
  pub positive : 0 < p.id
  pub small : p.id < 2 ^ 64
  pub valid : udb_nameisvalid p.name ≡ true
  pub single : Lacks 10 p.name
  pub no_terminator : Lacks 0 p.key
  pub no_feed : Lacks 10 p.key
  pub no_return : Lacks 13 p.key
  pub short : length p.key ≤ 15949

-- A line without its end.
abbrev pub line_of : User → List ℕ
line_of p = hex_word 16 p.id ++ (b'|' ∷ (p.name ++ (b'|' ∷ p.key)))

line_of-append :
    (p : User) (rest : List ℕ)
    → line_of p ++ rest ≡ hex_word 16 p.id ++ b'|' ∷ (p.name ++ (b'|' ∷ (p.key ++ rest)))
line_of-append p rest =
    append_assoc (hex_word 16 p.id) (b'|' ∷ (p.name ++ (b'|' ∷ p.key))) rest
    ∙ ap (λ x. hex_word 16 p.id ++ b'|' ∷ x) (append_assoc p.name (b'|' ∷ p.key) rest)

pub print_user-line_of : (p : User) (rest : List ℕ) → print_user p ++ rest ≡ line_of p ++ 10 ∷ rest
unfolding print_user
print_user-line_of p rest =
    ap (λ x. x ++ rest) (sym (line_of-append p (10 ∷ []))) ∙ append_assoc (line_of p) (10 ∷ []) rest

line_of-Lacks :
    (c : ℕ) (p : User)
    → IsPlain p
    → hex_value c ≡ none
    → is_name_char c ≡ false
    → b'|' ≢ c
    → Lacks c p.key
    → Lacks c (line_of p)
line_of-Lacks c p v digit word bar key =
    let w = udb_nameisvalid-IsWord p.name v.valid v.single in
    Lacks-append c (hex_word 16 p.id) _ (IsDigit-Lacks c _ digit (hex_word-IsDigit 16 p.id))
      (bar, Lacks-append c p.name (b'|' ∷ p.key) (IsWord-Lacks c p.name word w.0) (bar, key))

pub line_of-single : (p : User) → IsPlain p → Lacks 10 (line_of p)
unfolding hex_value is_name_char
line_of-single p v = line_of-Lacks 10 p v refl refl (λ e. absurd (omega (arith, e))) v.no_feed

pub line_of-text : (p : User) → IsPlain p → Lacks 0 (line_of p)
unfolding hex_value is_name_char
line_of-text p v = line_of-Lacks 0 p v refl refl (λ e. absurd (omega (arith, e))) v.no_terminator

pub length-line_of : (p : User) → IsPlain p → length (line_of p) < 15999
length-line_of p v =
    let w = udb_nameisvalid-IsWord p.name v.valid v.single in
    omega (
      arith,
      length-append (hex_word 16 p.id) (b'|' ∷ (p.name ++ (b'|' ∷ p.key))),
      length-append p.name (b'|' ∷ p.key),
      length-hex_word 16 p.id,
      w.1,
      v.short,
    )

-- The line of an account is read back as that account.
pub parse_line-line_of :
    (p : User)
    → IsPlain p
    → parse_line (line_of p ++ 10 ∷ []) ≡ some (record { id = p.id; name = p.name; key = p.key })
unfolding hex_value is_name_char parse_line parse_fields
parse_line-line_of p v =
    let w = udb_nameisvalid-IsWord p.name v.valid v.single in
    let bar : Lacks b'|' p.name = IsWord-Lacks b'|' p.name refl w.0 in
    let text = p.name ++ (b'|' ∷ (p.key ++ 10 ∷ [])) in
    let number : strtoull16 (hex_word 16 p.id ++ b'|' ∷ text) ≡ (p.id, b'|' ∷ text) =
      strtoull16-hex_word p.id b'|' text v.small refl in
    let some_id : (p.id == 0) ≡ false = ground (arith, v.positive) in
    ap parse_line (line_of-append p (10 ∷ []))
    ∙ rw (number, parse_line)
        (rw (some_id, parse_fields)
          (rw
            (
              split_at-found b'|' p.name (p.key ++ 10 ∷ []) bar,
              cut_line-key p.key v.no_return v.no_feed,
            )
            refl))
