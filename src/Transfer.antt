-- ===== src/Transfer.antt =====
-- Offers and downloads, transfer.c: the list `transfers`, its head first, and the operations on it.
-- The clock, `stat` and the random numbers are inputs. A file descriptor of -1 is `none`.
pub mod Removal
pub mod FileAccess
pub mod Ids
pub mod Format
pub mod Matching
pub mod Printing
pub mod Reading
pub mod Names
use frelay.Common.{ℕ, zero, suc, ◌+◌, ◌-◌, List, [], ◌∷◌, ◌++◌, length}
use frelay.Common.{
  Option, none, some, Bool, true, false, ◌&&◌, ◌||◌, not, ltb, leb, ◌==◌, if◌then◌else◌,
}
use frelay.Strings.{skip_space, hex_value, strtoull16}

-- `enum transfer_type`.
pub data TransferType : Type 0 where
  ttype_offer ttype_download : TransferType

abbrev pub same_type : TransferType → TransferType → Bool
same_type ttype_offer ttype_offer = true
same_type ttype_download ttype_download = true
same_type _ _ = false

-- `transfer_t`.
pub record Transfer : Type 0 where
  pub type : TransferType
  pub rid : ℕ
  pub oid : ℕ
  pub name : Option (List ℕ)
  pub partname : Option (List ℕ)
  pub size : ℕ
  pub offset : ℕ
  pub fd : Option ℕ
  pub tstart : ℕ
  pub tact : ℕ

unfoldable pub transfer_new : TransferType → ℕ → List Transfer → List Transfer
transfer_new type now transfers =
    record {
      type = type;
      rid = 0;
      oid = 0;
      name = none;
      partname = none;
      size = 0;
      offset = 0;
      fd = none;
      tstart = now;
      tact = now;
    }
    ∷ transfers

unfoldable pub is_match : TransferType → ℕ → ℕ → Transfer → Bool
is_match type rid oid t = same_type type t.type && oid == t.oid && rid == t.rid && ltb 0 t.tact

-- The first entry that matches is touched; its position is the pointer that is returned.
unfoldable pub transfer_match : TransferType → ℕ → ℕ → ℕ → List Transfer → List Transfer × Option ℕ
transfer_match type rid oid now [] = ([], none)
transfer_match type rid oid now (t ∷ more) =
    let (more1, r) = transfer_match type rid oid now more in
    if is_match type rid oid t
    then (record t { tact = now } ∷ more, some 0)
    else (t ∷ more1, elim r [ none ↦ none | some i ↦ some (suc i) ])

unfoldable pub transfer_closeall : List Transfer → List Transfer
transfer_closeall [] = []
transfer_closeall (p ∷ more) = record p { fd = none } ∷ transfer_closeall more

unfoldable pub transfer_invalidate : Transfer → Transfer
transfer_invalidate p = record p { rid = 0; oid = 0; tact = 0; fd = none }

-- Entries past their best before date are unlinked.
unfoldable pub transfer_upkeep : ℕ → ℕ → List Transfer → List Transfer
transfer_upkeep timeout now [] = []
transfer_upkeep timeout now (p ∷ more) =
    let rest = transfer_upkeep timeout now more in
    if ltb (p.tact + timeout) now then rest else p ∷ rest

-- The entries for which the callback is called and does not ask to stop.
unfoldable pub transfer_list : (Transfer → Bool) → List Transfer → List Transfer
transfer_list cb [] = []
transfer_list cb (p ∷ more) =
    let rest = transfer_list cb more in
    if not (p.rid == 0) && not (p.oid == 0) && not (p.tact == 0)
    then (if cb p then p ∷ rest else [])
    else rest

-- `%16[*0-9a-fA-F]`: up to `room` characters of the set, and what stands behind them.
unfoldable pub in_set : ℕ → Bool
in_set c = c == b'*' || elim (hex_value c) [ none ↦ false | some d ↦ true ]

unfoldable pub scan_set : ℕ → List ℕ → List ℕ × List ℕ
scan_set zero s = ([], s)
scan_set (suc room) [] = ([], [])
scan_set (suc room) (c ∷ s) =
    let (front, back) = scan_set room s in if in_set c then (c ∷ front, back) else ([], c ∷ s)

-- Such a conversion fails on an empty match.
unfoldable pub not_empty : List ℕ × List ℕ → Option (List ℕ × List ℕ)
not_empty ([], back) = none
not_empty (c ∷ front, back) = some (c ∷ front, back)

unfoldable pub scan_ids : List ℕ → Option (List ℕ × List ℕ)
scan_ids s = not_empty (scan_set 16 s)

unfoldable pub scan_comma : List ℕ → Option (List ℕ)
scan_comma [] = none
scan_comma (c ∷ s) = if c == b',' then some s else none

unfoldable pub scan_oids : ℕ → List ℕ → List ℕ → Option (ℕ × List ℕ × List ℕ)
scan_oids t rids s = elim (scan_ids s) [ none ↦ none | some (oids, back) ↦ some (t, rids, oids) ]

unfoldable pub scan_rids : ℕ → List ℕ → Option (ℕ × List ℕ × List ℕ)
scan_rids t s = elim (scan_ids s) [
  | none ↦ none
  | some (rids, back) ↦ elim (scan_comma back) [ none ↦ none | some s1 ↦ scan_oids t rids s1 ]
]

-- The type, the remote ids and the offer ids of " %c,%16[*0-9a-fA-F],%16[*0-9a-fA-F] ".
unfoldable pub scan_pattern : List ℕ → Option (ℕ × List ℕ × List ℕ)
scan_pattern s = elim (skip_space s) [
  | [] ↦ none
  | t ∷ s1 ↦ elim (scan_comma s1) [ none ↦ none | some s2 ↦ scan_rids t s2 ]
]

unfoldable pub toupper : ℕ → ℕ
toupper c = if leb b'a' c && leb c b'z' then c - 32 else c

abbrev pub is_star : ℕ → Bool
is_star c = c == b'*'

unfoldable pub has_star : List ℕ → Bool
has_star [] = false
has_star (c ∷ s) = is_star c || has_star s

-- `strchr( ids, '*' ) && 1 != strlen( ids )`.
unfoldable pub bad_ids : List ℕ → Bool
bad_ids ids = has_star ids && not (length ids == 1)

abbrev pub letter : TransferType → ℕ
letter ttype_offer = b'O'
letter ttype_download = b'D'

-- One of the three tests: `any` or the same.
abbrev pub wild : List ℕ → ℕ → Bool
wild [] id = false
wild (c ∷ s) id = is_star c || (strtoull16 (c ∷ s)).0 == id

unfoldable pub selected : ℕ → List ℕ → List ℕ → TransferType → ℕ → ℕ → Bool
selected t rids oids type rid oid =
    (is_star t || letter type == t) && wild rids rid && wild oids oid

-- The entries that the pattern selects are invalidated and counted.
unfoldable pub remove_selected : ℕ → List ℕ → List ℕ → List Transfer → List Transfer × ℕ
remove_selected t rids oids [] = ([], 0)
remove_selected t rids oids (p ∷ more) =
    let (more1, n) = remove_selected t rids oids more in
    if selected t rids oids p.type p.rid p.oid
    then (transfer_invalidate p ∷ more1, n + 1)
    else (p ∷ more1, n)

-- `none` for -1.
unfoldable pub remove_scanned :
    Option (ℕ × List ℕ × List ℕ) → List Transfer → List Transfer × Option ℕ
remove_scanned none transfers = (transfers, none)
remove_scanned (some (t0, rids, oids)) transfers =
    let t = toupper t0 in
    if (not (is_star t) && not (t == b'O') && not (t == b'D')) || bad_ids rids || bad_ids oids
    then (transfers, none)
    else (let (left, n) = remove_selected t rids oids transfers in (left, some n))

unfoldable pub transfer_remove : List ℕ → List Transfer → List Transfer × Option ℕ
transfer_remove s transfers = remove_scanned (scan_pattern s) transfers

-- What `stat` gave, and the random number for the offer's id.
unfoldable pub offer_new : ℕ → List ℕ → Option ℕ → ℕ → ℕ → List Transfer → List Transfer
offer_new dest filename none random now transfers = transfers
offer_new dest filename (some fsz) random now transfers =
    elim (transfer_new ttype_offer now transfers) [
      | [] ↦ []
      | o ∷ more ↦ record o { rid = dest; oid = random; name = some filename; size = fsz } ∷ more
    ]

unfoldable pub download_new : ℕ → List Transfer → List Transfer
download_new now transfers = transfer_new ttype_download now transfers
