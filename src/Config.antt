-- ===== src/Config.antt =====
-- Configuration files, cfgparse.c: lines `name=value` and the table of the names that are known.
-- An `int` is a 32-bit word, the result of `strtol` a 64-bit word, negative above the middle.
pub mod Assign
pub mod Line
use frelay.Common.{ℕ, zero, suc, ◌+◌, ◌-◌, ◌*◌, ◌/◌, ◌%◌, ◌^◌, List, [], ◌∷◌, ◌++◌, length, codes}
use frelay.Common.{Option, none, some, Bool, true, false, ◌&&◌, ◌||◌, not, ltb, ◌==◌, if◌then◌else◌}
use frelay.Strings.{str_eq, is_space, skip_space, hex_value, strip_0x}
use frelay.UserDb.{fgets, to_text}

-- `enum CFG_PARSE_TYPE`, with what `pvar` points to; the text of a null pointer is `none`.
pub data CfgVar : Type 0 where
  cfg_parse_t_none : CfgVar
  cfg_parse_t_int : ℕ → CfgVar
  cfg_parse_t_str : Option (List ℕ) → CfgVar

-- `cfg_parse_def_t`; a table is a list of them.
pub record CfgDef : Type 0 where
  pub name : List ℕ
  pub var : CfgVar

-- The digits of a base at the front of a text, added to `acc`.
unfoldable pub base_digits : ℕ → ℕ → List ℕ → ℕ
base_digits base acc [] = acc
base_digits base acc (c ∷ s) = elim (hex_value c) [
  | none ↦ acc
  | some d ↦ let more = base_digits base (acc * base + d) s in if ltb d base then more else acc
]

-- Base 16 behind `0x` and a digit, base 8 behind `0`, else base 10.
unfoldable pub unsigned_any : List ℕ → ℕ
unsigned_any [] = 0
unsigned_any (c ∷ s) =
    if not (c == b'0')
    then base_digits 10 0 (c ∷ s)
    else (let t = strip_0x (c ∷ s) in
        if length t == length (c ∷ s) then base_digits 8 0 (c ∷ s) else base_digits 16 0 t)

unfoldable pub clamp : ℕ → ℕ → ℕ
clamp most n = if ltb most n then most else n

-- `strtol( s, NULL, 0 )`, cut off at LONG_MAX and LONG_MIN.
unfoldable pub signed_any : List ℕ → ℕ
signed_any [] = 0
signed_any (c ∷ s) =
    if c == b'-'
    then (2 ^ 64 - clamp (2 ^ 63) (unsigned_any s)) % 2 ^ 64
    else if c == b'+'
    then clamp (2 ^ 63 - 1) (unsigned_any s)
    else clamp (2 ^ 63 - 1) (unsigned_any (c ∷ s))

unfoldable pub strtol0 : List ℕ → ℕ
strtol0 s = signed_any (skip_space s)

unfoldable pub skip_ws : List ℕ → List ℕ
skip_ws s = skip_space s

-- The text from the first `=` or white space on.
unfoldable pub skip_name : List ℕ → List ℕ
skip_name [] = []
skip_name (c ∷ s) = let rest = skip_name s in if c == b'=' || is_space c then c ∷ s else rest

-- What stands before it.
unfoldable pub take_name : List ℕ → List ℕ
take_name [] = []
take_name (c ∷ s) = let rest = take_name s in if c == b'=' || is_space c then [] else c ∷ rest

unfoldable pub drop_last : ℕ → List ℕ → List ℕ
drop_last c [] = if is_space c then [] else c ∷ []
drop_last c (d ∷ s) = c ∷ d ∷ s

unfoldable pub rtrim : List ℕ → List ℕ
rtrim [] = []
rtrim (c ∷ s) = drop_last c (rtrim s)

unfoldable pub set_var : CfgVar → List ℕ → CfgVar
set_var cfg_parse_t_none val = cfg_parse_t_none
set_var (cfg_parse_t_int n) val = cfg_parse_t_int (strtol0 val % 2 ^ 32)
set_var (cfg_parse_t_str s) val = cfg_parse_t_str (some val)

-- The result is `true` for 0 and `false` for -1.
unfoldable pub cfg_parse_assign : List ℕ → List ℕ → List CfgDef → List CfgDef × Bool
cfg_parse_assign name val [] = ([], false)
cfg_parse_assign name val (p ∷ def) =
    let (def1, r) = cfg_parse_assign name val def in
    if str_eq name p.name then (record p { var = set_var p.var val } ∷ def, true) else (p ∷ def1, r)

-- `name` up to the `=` and `val` behind it.
unfoldable pub assign_trimmed : List ℕ → List ℕ → List CfgDef → List CfgDef × Bool
assign_trimmed [] val def = (def, false)
assign_trimmed (c ∷ name) val def = cfg_parse_assign (c ∷ name) (rtrim (skip_ws val)) def

unfoldable pub split_name : List ℕ → List ℕ → List CfgDef → List CfgDef × Bool
split_name name [] def = (def, false)
split_name name (c ∷ val) def =
    if c == b'=' then assign_trimmed (rtrim name) val def else (def, false)

-- The white space between the name and the `=` is trimmed off the name again.
unfoldable pub parse_trimmed : List ℕ → List CfgDef → List CfgDef × Bool
parse_trimmed [] def = (def, true)
parse_trimmed (c ∷ s) def =
    if c == b'#'
    then (def, true)
    else split_name (take_name (c ∷ s)) (skip_ws (skip_name (c ∷ s))) def

unfoldable pub cfg_parse_line : List ℕ → List CfgDef → List CfgDef × Bool
cfg_parse_line line def = parse_trimmed (skip_ws line) def

abbrev line_max : ℕ
line_max = 4000

-- Each round takes at least one byte of the file, so the fuel `length s` is enough.
unfoldable pub parse_lines : ℕ → List ℕ → List CfgDef → Bool → List CfgDef × Bool
parse_lines zero s def r = (def, r)
parse_lines (suc fuel) [] def r = (def, r)
parse_lines (suc fuel) (c ∷ s) def r =
    let (line, rest) = fgets (line_max - 1) (c ∷ s) in
    let (def1, r1) = cfg_parse_line (to_text line) def in parse_lines fuel rest def1 (r && r1)

unfoldable pub cfg_parse_fp : List ℕ → List CfgDef → List CfgDef × Bool
cfg_parse_fp s def = parse_lines (length s) s def true

-- `none` is a file that cannot be opened.
unfoldable pub cfg_parse_file : Option (List ℕ) → List CfgDef → List CfgDef × Bool
cfg_parse_file none def = (def, false)
cfg_parse_file (some s) def = cfg_parse_fp s def

-- The decimal digits of a number below 10 ^ k.
unfoldable pub decimal : ℕ → ℕ → List ℕ
decimal zero n = []
decimal (suc k) n = if ltb n 10 then (b'0' + n) ∷ [] else decimal k (n / 10) ++ (b'0' + n % 10) ∷ []

-- `%d`; an `int` has at most ten digits.
unfoldable pub print_int : ℕ → List ℕ
print_int n = if ltb n (2 ^ 31) then decimal 10 n else b'-' ∷ decimal 10 (2 ^ 32 - n)

unfoldable pub print_line : List ℕ → List ℕ → List ℕ
print_line name val = name ++ (b'=' ∷ (val ++ 10 ∷ []))

-- A null pointer is printed as glibc does.
unfoldable pub print_var : List ℕ → CfgVar → List ℕ
print_var name cfg_parse_t_none = []
print_var name (cfg_parse_t_int n) = print_line name (print_int n)
print_var name (cfg_parse_t_str none) = print_line name (codes "(null)")
print_var name (cfg_parse_t_str (some s)) = print_line name s

unfoldable pub print_def : CfgDef → List ℕ
print_def p = print_var p.name p.var

-- What `cfg_write_fp` writes where no `fprintf` fails.
unfoldable pub cfg_write_fp : List CfgDef → List ℕ
cfg_write_fp [] = []
cfg_write_fp (p ∷ def) = print_def p ++ cfg_write_fp def
