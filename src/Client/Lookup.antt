-- ===== src/Client/Lookup.antt =====
-- cltmain.c, `process_stdin`: a command may be abbreviated.
use frelay.Common.{ℕ, ◌≡◌, refl, arith, List, [], ◌∷◌, length}
use frelay.Common.{Option, none, some, Bool, Bool-cases, inl, inr, true, false, ◌==◌, ◌&&◌}
use frelay.Common.{if◌then◌else◌, is_zero}
use frelay.Strings.{strnicmp, tolower}
use frelay.Strings.Compare.{IsText, tolower_pos, tolower_zero}
use frelay.Client.CommandLine.{Cmd, find_cmd}

-- `t` stands at the front of `s`, but for the case of letters.
abbrev begins : List ℕ → List ℕ → Bool
begins [] s = true
begins (d ∷ t) [] = false
begins (d ∷ t) (c ∷ s) = tolower c == tolower d && begins t s

strnicmp-begins : (s t : List ℕ) → IsText t → is_zero (strnicmp s t (length t)) ≡ begins t s
unfolding strnicmp
strnicmp-begins s [] h = refl
strnicmp-begins [] (d ∷ t) (hd, h) = ground (arith, tolower_zero, tolower_pos d hd)
strnicmp-begins (c ∷ s) (d ∷ t) (hd, h) = ground (arith, strnicmp-begins s t h)

-- The commands of all the names that begin with `arg`.
abbrev pub candidates : List ℕ → List (List ℕ × Cmd) → List Cmd
candidates arg [] = []
candidates arg ((name, c) ∷ more) =
    if begins arg name then c ∷ candidates arg more else candidates arg more

-- None is an unknown command, two are ambiguous.
abbrev pub chosen : List Cmd → Option (Option Cmd)
chosen [] = some none
chosen (c ∷ []) = some (some c)
chosen (c ∷ d ∷ more) = none

find_cmd-second :
    (arg : List ℕ) (l : List (List ℕ × Cmd)) (c : Cmd)
    → IsText arg
    → find_cmd arg l (some c) ≡ chosen (c ∷ candidates arg l)
unfolding find_cmd
find_cmd-second arg [] c h = refl
find_cmd-second arg ((name, d) ∷ l) c h = elim (Bool-cases (begins arg name)) [
  | inl hit ↦ rw (strnicmp-begins name arg h, hit) refl
  | inr miss ↦ rw (strnicmp-begins name arg h, miss) (find_cmd-second arg l c h)
]

-- The command that is run is the only one whose name begins with what the user typed, whatever the
-- case of the letters; without one the command is unknown, and with more it is ambiguous, even where
-- they mean the same.
pub find_cmd-chosen :
    (arg : List ℕ) (l : List (List ℕ × Cmd))
    → IsText arg
    → find_cmd arg l none ≡ chosen (candidates arg l)
unfolding find_cmd
find_cmd-chosen arg [] h = refl
find_cmd-chosen arg ((name, d) ∷ l) h = elim (Bool-cases (begins arg name)) [
  | inl hit ↦ rw (strnicmp-begins name arg h, hit) (find_cmd-second arg l d h)
  | inr miss ↦ rw (strnicmp-begins name arg h, miss) (find_cmd-chosen arg l h)
]
