-- ===== src/Strings/Compare.antt =====
-- String comparison: the tests of <string.h> and lib/stricmp.c decide equality.
use mathlib.Core.List.{map}
use frelay.Common.{ℕ, ◌≡◌, ◌<◌, refl, ◌↔◌, List, [], ◌∷◌, true, is_zero, All, arith}
use frelay.Strings.{str_eq, tolower, stricmp}

pub str_eq_sound : (s t : List ℕ) → str_eq s t ≡ true → s ≡ t
unfolding str_eq
str_eq_sound [] [] h = refl
str_eq_sound [] (d ∷ t) h = cc
str_eq_sound (c ∷ s) [] h = cc
str_eq_sound (c ∷ s) (d ∷ t) h = ground (arith, str_eq_sound s t)

pub str_eq_self : (s : List ℕ) → str_eq s s ≡ true
unfolding str_eq
str_eq_self [] = refl
str_eq_self (c ∷ s) = ground (arith, str_eq_self s)

str_eq_iff : (s t : List ℕ) → (str_eq s t ≡ true) ↔ (s ≡ t)
str_eq_iff s t = (str_eq_sound s t, λ e. rw e (str_eq_self t))

-- A C string has no terminator inside.
abbrev pub IsText : List ℕ → Type 0
IsText = All (λ c. 0 < c)

abbrev pub lowered : List ℕ → List ℕ
lowered = map tolower

pub tolower_pos : (c : ℕ) → 0 < c → 0 < tolower c
unfolding tolower
tolower_pos c h = ground arith

pub tolower_zero : tolower 0 ≡ 0
unfolding tolower
tolower_zero = refl

-- `stricmp` is 0 exactly for strings that agree but for the case of their letters.
pub stricmp_iff :
    (s t : List ℕ) → IsText s → IsText t → (is_zero (stricmp s t) ≡ true) ↔ (lowered s ≡ lowered t)
unfolding stricmp
stricmp_iff [] [] hs ht = (λ _. refl, λ _. ground arith)
stricmp_iff [] (d ∷ t) hs ht = (λ e. ground (arith, tolower_zero, tolower_pos d), λ e. cc)
stricmp_iff (c ∷ s) [] hs ht = (λ e. ground (arith, tolower_zero, tolower_pos c), λ e. cc)
stricmp_iff (c ∷ s) (d ∷ t) hs ht =
    let ih = stricmp_iff s t hs.1 ht.1 in (λ e. ground (arith, ih), λ e. ground (arith, ih))
