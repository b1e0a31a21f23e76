-- ===== src/Strings/Hex.antt =====
-- Hexadecimal numbers as they are printed by "%016x" and read by `strtoull`.
use frelay.Common.{ℕ, zero, suc, ◌+◌, ◌*◌, ◌/◌, ◌%◌, ◌^◌, ◌≤◌, ◌<◌, ◌≡◌, refl, ap, ◌∙◌, arith}
use frelay.Common.{
  List, [], ◌∷◌, ◌++◌, length, length-append, All, none, some, true, false, ◌==◌, ltb,
}
use mathlib.Core.List.{append_assoc}
use frelay.Common.{◌&&◌, ◌||◌, ◌⊎◌, inl, inr, ◌-◌}
use frelay.Strings.{
  is_space, skip_space, hex_value, hex_digits, clamp64, strip_0x, unsigned_hex, signed_hex,
  strtoull16,
}
use frelay.UserDb.{hex_digit, hex_word}

-- What `k` digits can hold.
abbrev digits_bound : ℕ → ℕ
digits_bound zero = 1
digits_bound (suc k) = 16 * digits_bound k

hex_value-hex_digit : (v : ℕ) → v < 16 → hex_value (hex_digit v) ≡ some v
unfolding hex_value hex_digit
hex_value-hex_digit v h = ground arith

-- The digits of a word are read back.
pub hex_digits-hex_word :
    (k v : ℕ) (tail : List ℕ)
    → v < digits_bound k
    → hex_digits 0 (hex_word k v ++ tail) ≡ hex_digits v tail
unfolding hex_digits hex_word
hex_digits-hex_word zero v tail small = ap (λ n. hex_digits n tail) (omega arith)
hex_digits-hex_word (suc k) v tail small =
    let last : v % 16 < 16 = omega arith in
    let whole : v / 16 * 16 + v % 16 ≡ v = omega arith in
    ap (hex_digits 0) (append_assoc (hex_word k (v / 16)) (hex_digit (v % 16) ∷ []) tail)
    ∙ hex_digits-hex_word k (v / 16) (hex_digit (v % 16) ∷ tail) (omega arith)
    ∙ rw (hex_value-hex_digit (v % 16) last, hex_digits) (ap (λ n. hex_digits n tail) whole)

-- The characters of such a number.
abbrev pub IsDigit : ℕ → Type 0
IsDigit c = ((48 ≤ c) × (c ≤ 57)) ⊎ ((97 ≤ c) × (c ≤ 102))

hex_digit-IsDigit : (v : ℕ) → v < 16 → IsDigit (hex_digit v)
unfolding hex_digit
hex_digit-IsDigit v h = ground arith

All-append : (P : ℕ → Type 0) (xs ys : List ℕ) → All P xs → All P ys → All P (xs ++ ys)
All-append P [] ys h g = g
All-append P (x ∷ xs) ys (hx, h) g = (hx, All-append P xs ys h g)

pub hex_word-IsDigit : (k v : ℕ) → All IsDigit (hex_word k v)
unfolding hex_word
hex_word-IsDigit zero v = tt
hex_word-IsDigit (suc k) v =
    All-append IsDigit (hex_word k (v / 16)) (hex_digit (v % 16) ∷ []) (hex_word-IsDigit k (v / 16))
      (hex_digit-IsDigit (v % 16) (omega arith), tt)

pub length-hex_word : (k v : ℕ) → length (hex_word k v) ≡ k
unfolding hex_word
length-hex_word zero v = refl
length-hex_word (suc k) v = omega (
  arith,
  length-append (hex_word k (v / 16)) (hex_digit (v % 16) ∷ []),
  length-hex_word k (v / 16),
)

-- Digits start a number: they are no white space, no sign, and no `0x`.
pub IsDigit-hex_value : (c : ℕ) → IsDigit c → (v : ℕ) × (hex_value c ≡ some v)
unfolding hex_value
IsDigit-hex_value c (inl h) = (c - 48, ground arith)
IsDigit-hex_value c (inr h) = (c - 97 + 10, ground arith)

pub IsDigit-is_space : (c : ℕ) → IsDigit c → is_space c ≡ false
unfolding is_space
IsDigit-is_space c h = ground arith

strtoull16-digits :
    (l tail : List ℕ)
    → All IsDigit l
    → 2 < length l
    → strtoull16 (l ++ tail) ≡ (clamp64 (hex_digits 0 (l ++ tail)).0, (hex_digits 0 (l ++ tail)).1)
unfolding strtoull16 skip_space signed_hex unsigned_hex strip_0x
strtoull16-digits (c ∷ x ∷ d ∷ s) tail (hc, (hx, h)) long =
    let (v, ev) = IsDigit-hex_value c hc in
    let minus : (c == 45) ≡ false = ground arith in
    let plus : (c == 43) ≡ false = ground arith in
    let prefix : (c == 48 && (x == 120 || x == 88)) ≡ false = ground arith in
    let skip : skip_space (c ∷ x ∷ d ∷ (s ++ tail)) ≡ c ∷ x ∷ d ∷ (s ++ tail) =
      rw (IsDigit-is_space c hc, skip_space) refl in
    rw (skip, strtoull16) (rw (minus, plus, ev, prefix) refl)
strtoull16-digits [] tail h long = absurd (omega arith)
strtoull16-digits (c ∷ []) tail h long = absurd (omega arith)
strtoull16-digits (c ∷ x ∷ []) tail h long = absurd (omega arith)

-- A 64-bit word that was printed is read back, and what stands behind it is left.
pub strtoull16-hex_word :
    (v stop : ℕ) (tail : List ℕ)
    → v < 2 ^ 64
    → hex_value stop ≡ none
    → strtoull16 (hex_word 16 v ++ stop ∷ tail) ≡ (v, stop ∷ tail)
unfolding hex_digits clamp64
strtoull16-hex_word v stop tail small ends =
    let inside : ltb v (2 ^ 64) ≡ true = ground arith in
    let read : hex_digits 0 (hex_word 16 v ++ stop ∷ tail) ≡ (v, stop ∷ tail) =
      hex_digits-hex_word 16 v (stop ∷ tail) small ∙ rw (ends, hex_digits) refl in
    strtoull16-digits (hex_word 16 v) (stop ∷ tail) (hex_word-IsDigit 16 v)
      (omega (arith, length-hex_word 16 v))
    ∙ ap (λ r. (clamp64 r.0, r.1)) read
    ∙ rw inside refl
