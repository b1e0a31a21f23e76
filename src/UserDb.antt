-- ===== src/UserDb.antt =====
-- The user database, srvuserdb.c: the list `userdb` (its head first), `next_id`, and the file at
-- `userdb_path` as far as this code reads and writes it.
pub mod Invariant
pub mod Lookup
pub mod Load
pub mod Lines
pub mod Saved
use frelay.Common.{ℕ, zero, suc, ◌+◌, ◌-◌, ◌/◌, ◌%◌, ◌^◌, List, [], ◌∷◌, ◌++◌, length}
use frelay.Common.{
  Option, none, some, Bool, true, false, ◌&&◌, ◌||◌, not, ltb, leb, ◌==◌, if◌then◌else◌,
}
use frelay.Strings.{str_eq, split_at, strtoull16}

pub record User : Type 0 where
  pub id : ℕ
  pub name : List ℕ
  pub key : List ℕ

-- What `fopen` finds at the path: the bytes of a file that can be read, and whether it can be written.
pub record Disk : Type 0 where
  pub content : Option (List ℕ)
  pub writable : Bool

pub record UserDb : Type 0 where
  pub userdb : List User
  pub next_id : ℕ
  pub disk : Disk

-- The expression `^[a-zA-Z_0-9]{3,31}$`, compiled with REG_NEWLINE: one line of the text matches.
unfoldable pub is_name_char : ℕ → Bool
is_name_char c =
    (leb b'a' c && leb c b'z')
    || (leb b'A' c && leb c b'Z')
    || c == b'_'
    || (leb b'0' c && leb c b'9')

unfoldable pub all_name_chars : List ℕ → Bool
all_name_chars [] = true
all_name_chars (c ∷ s) = is_name_char c && all_name_chars s

unfoldable pub line_matches : List ℕ → Bool
line_matches s = all_name_chars s && leb 3 (length s) && leb (length s) 31

-- `seen` is the current line so far, reversed order does not matter: it is kept in order.
unfoldable pub some_line_matches : List ℕ → List ℕ → Bool
some_line_matches seen [] = line_matches seen
some_line_matches seen (c ∷ s) =
    let rest = some_line_matches [] s in
    let more = some_line_matches (seen ++ c ∷ []) s in
    if c == 10 then line_matches seen || rest else more

-- `0 == udb_nameisvalid( s )`.
unfoldable pub udb_nameisvalid : List ℕ → Bool
udb_nameisvalid s = some_line_matches [] s

unfoldable pub find_user : List User → List ℕ → Option User
find_user [] s = none
find_user (p ∷ more) s = if str_eq s p.name then some p else find_user more s

unfoldable pub udb_lookupname_ : UserDb → List ℕ → Option User
udb_lookupname_ d s = find_user d.userdb s

-- `errno` of a refused entry.
pub data Refusal : Type 0 where
  einval eexist : Refusal

pub data Added : Type 0 where
  added : User → Added
  refused : Refusal → Added

-- `name` and `key` are `none` for null pointers. Ids are 64-bit words.
unfoldable pub new_user : UserDb → ℕ → List ℕ → List ℕ → User
new_user d id name key = record { id = if id == 0 then d.next_id else id; name = name; key = key }

unfoldable pub link_user : UserDb → User → UserDb
link_user d p = record d {
  userdb = p ∷ d.userdb;
  next_id = if leb d.next_id p.id then (p.id + 1) % 2 ^ 64 else d.next_id;
}

unfoldable pub udb_addentry_ : UserDb → ℕ → Option (List ℕ) → Option (List ℕ) → UserDb × Added
udb_addentry_ d id none key = (d, refused einval)
udb_addentry_ d id (some name) none = (d, refused einval)
udb_addentry_ d id (some name) (some key) =
    if not (udb_nameisvalid name) then (d, refused einval) else elim (udb_lookupname_ d name) [
      | some p ↦ (d, refused eexist)
      | none ↦ let p = new_user d id name key in (link_user d p, added p)
    ]

-- The first entry of that name is unlinked; `none` if there is none.
unfoldable pub unlink_user : List User → List ℕ → Option (List User)
unlink_user [] name = none
unlink_user (p ∷ more) name =
    let rest = unlink_user more name in
    if str_eq name p.name
    then some more
    else elim rest [ none ↦ none | some left ↦ some (p ∷ left) ]

-- The result is `true` for 0 and `false` for -1.
unfoldable pub udb_dropentry_ : UserDb → List ℕ → UserDb × Bool
udb_dropentry_ d name = elim (unlink_user d.userdb name) [
  | none ↦ (d, false)
  | some left ↦ (record d { userdb = left }, true)
]

-- `sizeof line`.
abbrev pub line_size : ℕ
line_size = 16000

-- `fgets` into a buffer that has room for `room` more characters: the line up to and with its line
-- feed, or as much of it as fits, and the rest of the file.
unfoldable pub fgets : ℕ → List ℕ → List ℕ × List ℕ
fgets zero s = ([], s)
fgets (suc room) [] = ([], [])
fgets (suc room) (c ∷ s) =
    let more = fgets room s in if c == 10 then (c ∷ [], s) else (c ∷ more.0, more.1)

-- The text in a line's buffer ends at the first 0 that the file holds.
unfoldable pub to_text : List ℕ → List ℕ
to_text [] = []
to_text (c ∷ s) = let rest = to_text s in if c == 0 then [] else c ∷ rest

unfoldable pub cut_at : ℕ → List ℕ → List ℕ
cut_at c s = elim (split_at c s) [ none ↦ s | some (front, back) ↦ front ]

-- `strchr( key, '\r' )`, or else `strchr( key, '\n' )`, ends the key.
unfoldable pub cut_line : List ℕ → List ℕ
cut_line key = elim (split_at 13 key) [ none ↦ cut_at 10 key | some (front, back) ↦ front ]

pub record Line : Type 0 where
  pub id : ℕ
  pub name : List ℕ
  pub key : List ℕ

-- What the body of the loop takes from a line, `none` where it warns and goes on.
unfoldable pub parse_fields : ℕ → List ℕ → Option Line
parse_fields id [] = none
parse_fields id (c ∷ s) = if id == 0 || not (c == b'|') then none else elim (split_at b'|' s) [
  | none ↦ none
  | some (name, key) ↦ some (record { id = id; name = name; key = cut_line key })
]

unfoldable pub parse_line : List ℕ → Option Line
parse_line line = let (id, rest) = strtoull16 line in parse_fields id rest

unfoldable pub load_line : UserDb → List ℕ → UserDb
load_line d line = elim (parse_line line) [
  | none ↦ d
  | some l ↦ (udb_addentry_ d l.id (some l.name) (some l.key)).0
]

-- The loop over the lines; each takes at least one character, so the fuel `length s` is enough.
unfoldable pub load_lines : ℕ → UserDb → List ℕ → UserDb
load_lines zero d s = d
load_lines (suc fuel) d [] = d
load_lines (suc fuel) d (c ∷ s) =
    let (line, rest) = fgets (line_size - 1) (c ∷ s) in
    load_lines fuel (load_line d (to_text line)) rest

-- A list that is not empty is kept. The result 0 or -1 is not used by any caller.
unfoldable pub load_content : UserDb → Option (List ℕ) → UserDb
load_content d none = d
load_content d (some s) = load_lines (length s) d s

unfoldable pub udb_load : UserDb → UserDb
udb_load d = elim d.userdb [ [] ↦ load_content d d.disk.content | p ∷ more ↦ d ]

-- `%016x` of a 64-bit word.
unfoldable pub hex_digit : ℕ → ℕ
hex_digit v = if ltb v 10 then b'0' + v else b'a' + (v - 10)

unfoldable pub hex_word : ℕ → ℕ → List ℕ
hex_word zero v = []
hex_word (suc n) v = hex_word n (v / 16) ++ hex_digit (v % 16) ∷ []

unfoldable pub print_user : User → List ℕ
print_user p = hex_word 16 p.id ++ (b'|' ∷ (p.name ++ (b'|' ∷ (p.key ++ 10 ∷ []))))

unfoldable pub print_users : List User → List ℕ
print_users [] = []
print_users (p ∷ more) = print_user p ++ print_users more

unfoldable pub udb_save : UserDb → UserDb
udb_save d =
    if d.disk.writable
    then record d { disk = record { content = some (print_users d.userdb); writable = true } }
    else d

unfoldable pub udb_init : Disk → UserDb
udb_init f = udb_load (record { userdb = []; next_id = 1; disk = f })

unfoldable pub udb_lookupname : UserDb → List ℕ → UserDb × Option User
udb_lookupname d s = let d' = udb_load d in (d', udb_lookupname_ d' s)

unfoldable pub udb_addentry : UserDb → ℕ → Option (List ℕ) → Option (List ℕ) → UserDb × Added
udb_addentry d id name key =
    let (d', u) = udb_addentry_ (udb_load d) id name key in (udb_save d', u)

unfoldable pub udb_dropentry : UserDb → List ℕ → UserDb × Bool
udb_dropentry d name =
    let (d', r) = udb_dropentry_ (udb_load d) name in ((if r then udb_save d' else d'), r)

unfoldable pub udb_gettempid : UserDb → UserDb × ℕ
udb_gettempid d =
    let d' = udb_load d in (record d' { next_id = (d'.next_id + 1) % 2 ^ 64 }, d'.next_id)
