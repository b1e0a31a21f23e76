-- ===== src/Transfer/Ids.antt =====
-- transfer.c: the ids of transfers as the user reads and writes them.
use frelay.Common.{ℕ, List, [], ◌∷◌, ◌++◌}
use frelay.Common.{Option, none, some, Bool, not, ◌&&◌, ◌||◌, ◌==◌, if◌then◌else◌}
use frelay.Strings.{skip_space, hex_value, hex_digits, clamp64, neg64}
use frelay.UserDb.{hex_word}
use frelay.Transfer.{Transfer, TransferType, ttype_offer, ttype_download, scan_comma, toupper}

-- `%x` of `scanf`: white space, a sign, `0x`, and hexadecimal digits.
unfoldable pub scan_digits : (ℕ → ℕ) → List ℕ → Option (ℕ × List ℕ)
scan_digits sign [] = none
scan_digits sign (c ∷ s) = elim (hex_value c) [
  | none ↦ none
  | some v ↦ let (n, back) = hex_digits 0 (c ∷ s) in some (sign n, back)
]

unfoldable pub scan_unsigned : (ℕ → ℕ) → List ℕ → Option (ℕ × List ℕ)
scan_unsigned sign (c ∷ x ∷ s) =
    if c == b'0' && (x == b'x' || x == b'X')
    then (let (n, back) = hex_digits 0 s in some (sign n, back))
    else scan_digits sign (c ∷ x ∷ s)
scan_unsigned sign s = scan_digits sign s

unfoldable pub scan_signed : List ℕ → Option (ℕ × List ℕ)
scan_signed [] = none
scan_signed (c ∷ s) =
    if c == b'-'
    then scan_unsigned neg64 s
    else if c == b'+'
    then scan_unsigned clamp64 s
    else scan_unsigned clamp64 (c ∷ s)

unfoldable pub scan_x : List ℕ → Option (ℕ × List ℕ)
scan_x s = scan_signed (skip_space s)

abbrev value : Option (ℕ × List ℕ) → Option ℕ
value none = none
value (some (n, back)) = some n

-- What " %x,%x " assigns to `r` and `o`.
unfoldable pub scan_pair : List ℕ → Option ℕ × Option ℕ
scan_pair s = elim (scan_x s) [
  | none ↦ (none, none)
  | some (r, back) ↦ elim (scan_comma back) [
    | none ↦ (some r, none)
    | some s1 ↦ (some r, value (scan_x s1))
  ]
]

-- What " %c,%x,%x " assigns to `t`, `r` and `o`.
unfoldable pub scan_triple : List ℕ → ℕ × Option ℕ × Option ℕ
scan_triple s = elim (skip_space s) [
  | [] ↦ (0, none, none)
  | t ∷ s1 ↦ elim (scan_comma s1) [
    | none ↦ (t, none, none)
    | some s2 ↦ (t, (scan_pair s2).0, (scan_pair s2).1)
  ]
]

-- The number of conversions, the type if one was read, and the two ids.
abbrev pub Ids : Type 0
Ids = ℕ × Option TransferType × ℕ × ℕ

-- `for_type` tells whether `ptype` is not null: only then does the letter matter.
unfoldable pub typed : Bool → ℕ → ℕ → ℕ → Option Ids
typed for_type t r o =
    if not for_type
    then some (3, none, r, o)
    else if toupper t == b'D'
    then some (3, some ttype_download, r, o)
    else if toupper t == b'O'
    then some (3, some ttype_offer, r, o)
    else none

-- The third pattern, " %x "; `r` keeps what the earlier ones left in it.
unfoldable pub single : ℕ → List ℕ → Option Ids
single r s = elim (scan_x s) [ none ↦ none | some (o, back) ↦ some (1, none, r, o) ]

unfoldable pub untyped : ℕ → List ℕ → Option Ids
untyped r0 s =
    let (r, o) = scan_pair s in
    elim r [
      | none ↦ single r0 s
      | some r1 ↦ elim o [ none ↦ single r1 s | some o1 ↦ some (2, none, r1, o1) ]
    ]

-- `none` for -1.
unfoldable pub transfer_strtoi : Bool → List ℕ → Option Ids
transfer_strtoi for_type s =
    let (t, r, o) = scan_triple s in
    elim r [
      | none ↦ untyped 0 s
      | some r1 ↦ elim o [ none ↦ untyped r1 s | some o1 ↦ typed for_type t r1 o1 ]
    ]

abbrev pub type_letter : TransferType → ℕ
type_letter ttype_offer = b'O'
type_letter ttype_download = b'D'

-- The item `%i` of `transfer_itostr`.
unfoldable pub itostr_ids : Transfer → List ℕ
itostr_ids t = type_letter t.type ∷ b',' ∷ (hex_word 16 t.rid ++ (b',' ∷ hex_word 16 t.oid))
