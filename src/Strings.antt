-- ===== src/Strings.antt =====
-- C strings as lists of bytes without the terminator: what the code uses of <string.h>, <ctype.h>
-- and <stdlib.h>, and lib/stricmp.c.
pub mod Compare
pub mod Hex
use frelay.Common.{
  ℕ, zero, suc, ◌+◌, ◌-◌, ◌*◌, ◌/◌, ◌%◌, ◌^◌, List, [], ◌∷◌, ◌++◌, Option, none, some,
}
use frelay.Common.{ℤ, pos, sub_ℕ, is_zero}
use frelay.Common.{Bool, true, false, ◌&&◌, ◌||◌, ltb, leb, ◌==◌, if◌then◌else◌}

-- `0 == strcmp( s, t )`.
unfoldable pub str_eq : List ℕ → List ℕ → Bool
str_eq [] [] = true
str_eq [] (d ∷ t) = false
str_eq (c ∷ s) [] = false
str_eq (c ∷ s) (d ∷ t) = c == d && str_eq s t

-- `0 == strncmp( s, pre, strlen( pre ) )`.
unfoldable pub has_prefix : List ℕ → List ℕ → Bool
has_prefix s [] = true
has_prefix [] (d ∷ pre) = false
has_prefix (c ∷ s) (d ∷ pre) = c == d && has_prefix s pre

-- `strchr`: the text before the first `c`, and the text behind it.
unfoldable pub split_at : ℕ → List ℕ → Option (List ℕ × List ℕ)
split_at c [] = none
split_at c (d ∷ s) =
    let rest = split_at c s in
    if d == c
    then some ([], s)
    else elim rest [ none ↦ none | some (front, back) ↦ some (d ∷ front, back) ]

-- `isspace`, `tolower` and `toupper` in the C locale.
unfoldable pub is_space : ℕ → Bool
is_space c = (leb 9 c && leb c 13) || c == 32

unfoldable pub tolower : ℕ → ℕ
tolower c = if leb b'A' c && leb c b'Z' then c + 32 else c

unfoldable pub skip_space : List ℕ → List ℕ
skip_space [] = []
skip_space (c ∷ s) = let rest = skip_space s in if is_space c then rest else c ∷ s

-- The value of a hexadecimal digit.
unfoldable pub hex_value : ℕ → Option ℕ
hex_value c =
    if leb b'0' c && leb c b'9'
    then some (c - b'0')
    else if leb b'a' c && leb c b'f'
    then some (c - b'a' + 10)
    else if leb b'A' c && leb c b'F'
    then some (c - b'A' + 10)
    else none

-- The digits at the front of a text, added to `acc`, and what stands behind them.
unfoldable pub hex_digits : ℕ → List ℕ → ℕ × List ℕ
hex_digits acc [] = (acc, [])
hex_digits acc (c ∷ s) = elim (hex_value c) [
  | none ↦ (acc, c ∷ s)
  | some d ↦ hex_digits (acc * 16 + d) s
]

-- A value that overflows is ULLONG_MAX, with a minus sign or without; any other is negated by the
-- sign as a word.
unfoldable pub clamp64 : ℕ → ℕ
clamp64 n = if ltb n (2 ^ 64) then n else 2 ^ 64 - 1

unfoldable pub neg64 : ℕ → ℕ
neg64 n = if ltb n (2 ^ 64) then (2 ^ 64 - n) % 2 ^ 64 else 2 ^ 64 - 1

-- `strtoull( s, &end, 16 )` behind the white space and the sign: an optional `0x` before a digit,
-- then digits. `none` if there is no number.
unfoldable pub strip_0x : List ℕ → List ℕ
strip_0x (c ∷ x ∷ d ∷ s) =
    if c == b'0' && (x == b'x' || x == b'X')
    then elim (hex_value d) [ none ↦ c ∷ x ∷ d ∷ s | some v ↦ d ∷ s ]
    else c ∷ x ∷ d ∷ s
strip_0x s = s

-- `sign` is `clamp64` or `neg64`.
unfoldable pub unsigned_hex : (ℕ → ℕ) → List ℕ → Option (ℕ × List ℕ)
unsigned_hex sign [] = none
unsigned_hex sign (c ∷ s) = elim (hex_value c) [
  | none ↦ none
  | some v ↦ let (n, end) = hex_digits 0 (strip_0x (c ∷ s)) in some (sign n, end)
]

unfoldable pub signed_hex : List ℕ → Option (ℕ × List ℕ)
signed_hex [] = none
signed_hex (c ∷ s) =
    if c == b'-'
    then unsigned_hex neg64 s
    else if c == b'+'
    then unsigned_hex clamp64 s
    else unsigned_hex clamp64 (c ∷ s)

-- With no number the value is 0 and the end is the start.
unfoldable pub strtoull16 : List ℕ → ℕ × List ℕ
strtoull16 s = elim (signed_hex (skip_space s)) [ none ↦ (0, s) | some r ↦ r ]

-- lib/stricmp.c. The end of a list is the terminator, a character 0 that ends the loop.
unfoldable pub stricmp : List ℕ → List ℕ → ℤ
stricmp [] [] = sub_ℕ (tolower 0) (tolower 0)
stricmp [] (d ∷ t) = sub_ℕ (tolower 0) (tolower d)
stricmp (c ∷ s) [] = sub_ℕ (tolower c) (tolower 0)
stricmp (c ∷ s) (d ∷ t) =
    let r = sub_ℕ (tolower c) (tolower d) in let rest = stricmp s t in if is_zero r then rest else r

unfoldable pub strnicmp : List ℕ → List ℕ → ℕ → ℤ
strnicmp s t zero = pos 0
strnicmp [] [] (suc n) = sub_ℕ (tolower 0) (tolower 0)
strnicmp [] (d ∷ t) (suc n) = sub_ℕ (tolower 0) (tolower d)
strnicmp (c ∷ s) [] (suc n) = sub_ℕ (tolower c) (tolower 0)
strnicmp (c ∷ s) (d ∷ t) (suc n) =
    let r = sub_ℕ (tolower c) (tolower d) in
    let rest = strnicmp s t n in if is_zero r then rest else r
