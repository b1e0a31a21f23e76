-- ===== src/Config/Line.antt =====
-- cfgparse.c: a line that is written is read back.
use frelay.Common.{ℕ, ◌≡◌, refl, ap, ◌∙◌, All, List, [], ◌∷◌, ◌++◌}
use frelay.Common.{false, ◌==◌}
use frelay.Strings.{is_space, skip_space}
use frelay.Config.{
  CfgDef, skip_ws, skip_name, take_name, drop_last, rtrim, cfg_parse_assign, assign_trimmed,
  split_name, parse_trimmed, cfg_parse_line, print_line,
}

-- The characters of a name.
abbrev IsNameChar : ℕ → Type 0
IsNameChar c = (is_space c ≡ false) × ((c == b'=') ≡ false)

-- A name begins with a character that is not that of a comment.
abbrev pub IsName : List ℕ → Type 0
IsName [] = ⊥
IsName (c ∷ s) = ((c == b'#') ≡ false) × All IsNameChar (c ∷ s)

-- White space at neither end.
abbrev pub IsTrimmed : List ℕ → Type 0
IsTrimmed [] = Unit {0}
IsTrimmed (c ∷ s) = (is_space c ≡ false) × (rtrim (c ∷ s) ≡ c ∷ s)

take_name-append : (n r : List ℕ) → All IsNameChar n → take_name (n ++ (b'=' ∷ r)) ≡ n
unfolding take_name is_space
take_name-append [] r h = refl
take_name-append (c ∷ n) r ((sp, eq), h) = rw (sp, eq) (ap (λ s. c ∷ s) (take_name-append n r h))

skip_name-append : (n r : List ℕ) → All IsNameChar n → skip_name (n ++ (b'=' ∷ r)) ≡ b'=' ∷ r
unfolding skip_name is_space
skip_name-append [] r h = refl
skip_name-append (c ∷ n) r ((sp, eq), h) = rw (sp, eq) (skip_name-append n r h)

rtrim-name : (n : List ℕ) → All IsNameChar n → rtrim n ≡ n
unfolding rtrim drop_last
rtrim-name [] h = refl
rtrim-name (c ∷ []) ((sp, eq), h) = rw sp refl
rtrim-name (c ∷ d ∷ n) ((sp, eq), h) = rw (rtrim-name (d ∷ n) h) refl

rtrim-newline : (v : List ℕ) → rtrim (v ++ 10 ∷ []) ≡ rtrim v
unfolding rtrim drop_last is_space
rtrim-newline [] = refl
rtrim-newline (c ∷ v) = ap (drop_last c) (rtrim-newline v)

skip_ws-space : (c : ℕ) (s : List ℕ) → is_space c ≡ false → skip_ws (c ∷ s) ≡ c ∷ s
unfolding skip_ws skip_space
skip_ws-space c s h = rw h refl

value_trimmed : (v : List ℕ) → IsTrimmed v → rtrim (skip_ws (v ++ 10 ∷ [])) ≡ v
unfolding rtrim skip_ws skip_space is_space
value_trimmed [] h = refl
value_trimmed (c ∷ v) (sp, h) =
    ap rtrim (skip_ws-space c (v ++ 10 ∷ []) sp) ∙ rtrim-newline (c ∷ v) ∙ h

-- A line that `cfg_write_fp` prints sets the same name to the same value when it is read, for every
-- name without white space and `=` that does not look like a comment, and every value without white
-- space at its ends.
pub cfg_parse_line-print :
    (name val : List ℕ) (def : List CfgDef)
    → IsName name
    → IsTrimmed val
    → cfg_parse_line (print_line name val) def ≡ cfg_parse_assign name val def
unfolding cfg_parse_line parse_trimmed split_name assign_trimmed print_line is_space
cfg_parse_line-print [] val def h t = elim h [ ]
cfg_parse_line-print (c ∷ n) val def (comment, ((sp, eq), h)) t =
    let name_chars : All IsNameChar (c ∷ n) = ((sp, eq), h) in
    rw
      (
        skip_ws-space c (n ++ (b'=' ∷ (val ++ 10 ∷ []))) sp,
        comment,
        take_name-append (c ∷ n) (val ++ 10 ∷ []) name_chars,
        skip_name-append (c ∷ n) (val ++ 10 ∷ []) name_chars,
        skip_ws-space b'=' (val ++ 10 ∷ []) refl,
        rtrim-name (c ∷ n) name_chars,
        value_trimmed val t,
      )
      refl
