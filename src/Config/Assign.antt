-- ===== src/Config/Assign.antt =====
-- cfgparse.c, `cfg_parse_assign`: the table of the names seen through its lookup.
use frelay.Common.{ℕ, ◌≡◌, refl, sym, ◌∙◌, List, [], ◌∷◌, Option, none, some, Bool-cases, inl, inr}
use frelay.Common.{◌%◌, ◌^◌, Bool, true, false, if◌then◌else◌}
use frelay.Strings.{str_eq}
use frelay.Strings.Compare.{str_eq_sound, str_eq_self}
use frelay.Config.{
  CfgVar, cfg_parse_t_none, cfg_parse_t_int, cfg_parse_t_str, CfgDef, set_var, strtol0,
  cfg_parse_assign,
}

-- What a name stands for: the first entry of that name.
abbrev pub var_of : List CfgDef → List ℕ → Option CfgVar
var_of [] s = none
var_of (p ∷ def) s = let rest = var_of def s in if str_eq s p.name then some p.var else rest

abbrev pub is_known : Option CfgVar → Bool
is_known none = false
is_known (some v) = true

abbrev pub assigned : Bool → List ℕ → Option CfgVar → Option CfgVar
assigned b val none = none
assigned false val (some v) = some v
assigned true val (some cfg_parse_t_none) = some cfg_parse_t_none
assigned true val (some (cfg_parse_t_int n)) = some (cfg_parse_t_int (strtol0 val % 2 ^ 32))
assigned true val (some (cfg_parse_t_str old)) = some (cfg_parse_t_str (some val))

assigned-set : (val : List ℕ) (v : CfgVar) → some (set_var v val) ≡ assigned true val (some v)
unfolding set_var
assigned-set val cfg_parse_t_none = refl
assigned-set val (cfg_parse_t_int n) = refl
assigned-set val (cfg_parse_t_str old) = refl

assigned-other : (val : List ℕ) (o : Option CfgVar) → assigned false val o ≡ o
assigned-other val none = refl
assigned-other val (some v) = refl

-- An assignment changes what its name stands for and nothing else: a string variable becomes the
-- value, an integer the number that `strtol` reads in it with base 0, cut to 32 bits, every other name keeps its variable, and a name that is not in the
-- table stays out of it. It succeeds exactly if the name is in the table.
pub cfg_parse_assign-lookup :
    (name val : List ℕ) (def : List CfgDef) (s : List ℕ)
    → (var_of (cfg_parse_assign name val def).0 s ≡ assigned (str_eq s name) val (var_of def s))
      × ((cfg_parse_assign name val def).1 ≡ is_known (var_of def name))
unfolding cfg_parse_assign
cfg_parse_assign-lookup name val [] s = (refl, refl)
cfg_parse_assign-lookup name val (p ∷ def) s =
    let (ih, known) = cfg_parse_assign-lookup name val def s in
    elim (Bool-cases (str_eq name p.name)) [
      | inl hit ↦
          (let same = str_eq_sound name p.name hit in
            elim (Bool-cases (str_eq s p.name)) [
              | inl here ↦ (rw (hit, same, here) (assigned-set val p.var), rw hit refl)
              | inr other ↦
                  (rw (hit, same, other) (sym (assigned-other val (var_of def s))), rw hit refl)
            ])
      | inr miss ↦ elim (Bool-cases (str_eq s p.name)) [
        | inl here ↦ (rw (miss, here, str_eq-at s p.name name here miss) refl, rw miss known)
        | inr other ↦ (rw (miss, other) ih, rw miss known)
      ]
    ]
  where
    str_eq-at : (a b n : List ℕ) → str_eq a b ≡ true → str_eq n b ≡ false → str_eq a n ≡ false
    str_eq-at a b n h k = elim (Bool-cases (str_eq a n)) [
      | inl eq ↦
          (let ab = str_eq_sound a b h in
            let an = str_eq_sound a n eq in
            let nb : str_eq n b ≡ true = rw (sym an ∙ ab) (str_eq_self b) in cc)
      | inr distinct ↦ distinct
    ]
