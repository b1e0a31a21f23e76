-- ===== src/Transfer/FileAccess.antt =====
-- transfer.c: the files behind offers and downloads. What the system calls give is an input.
use frelay.Common.{ℕ, zero, suc, ◌+◌, ◌-◌, ◌^◌, List, [], ◌∷◌, ◌++◌, length, take, codes}
use frelay.Common.{Option, none, some, Bool, true, false, ◌&&◌, not, ltb, ◌==◌, if◌then◌else◌}
use frelay.Common.{Outcome, returns, dies}
use frelay.Config.{decimal}
use frelay.Transfer.{Transfer}

-- `opened` is `open` of a file that is there, `created` is `open` with O_CREAT and O_EXCL; `seek` is
-- `lseek` to an offset, `end_of` to the end. `none` stands for -1.
pub record FileSys : Type 0 where
  pub opened : List ℕ → Option ℕ
  pub created : List ℕ → Option ℕ
  pub seek : ℕ → Bool
  pub end_of : ℕ → Option ℕ
  pub read : ℕ → ℕ → Option (List ℕ)
  pub write : List ℕ → Option ℕ
  pub rename : List ℕ → List ℕ → Bool
  pub malloc : ℕ → Bool

-- `open` of a null pointer fails.
abbrev pub with_name : (List ℕ → Option ℕ) → Option (List ℕ) → Option ℕ
with_name f none = none
with_name f (some name) = f name

abbrev pub or_else : Option ℕ → Option ℕ → Option ℕ
or_else none fd = fd
or_else (some n) fd = some n

-- What stands in `*psz` after `n` bytes were read, `(ssize_t)sz > n` included.
abbrev pub read_size : ℕ → ℕ → ℕ
read_size sz n = if ltb n sz && ltb sz (2 ^ 63) then n else sz

unfoldable pub read_at : FileSys → Transfer → ℕ → ℕ → Outcome (Transfer × Option (List ℕ) × ℕ)
read_at k o off sz =
    if not (k.seek off)
    then returns (o, none, sz)
    else if not (k.malloc sz)
    then dies
    else elim (k.read off sz) [
      | none ↦ returns (record o { fd = none }, none, sz)
      | some [] ↦ returns (record o { fd = none }, none, 0)
      | some (x ∷ xs) ↦ returns (o, some (x ∷ xs), read_size sz (length (x ∷ xs)))
    ]

-- The result is the offer, the bytes behind the pointer that is returned, and `*psz`.
unfoldable pub offer_read : FileSys → Transfer → ℕ → ℕ → Outcome (Transfer × Option (List ℕ) × ℕ)
offer_read k o off sz = elim (or_else o.fd (with_name k.opened o.name)) [
  | none ↦ returns (record o { fd = none }, none, sz)
  | some n ↦ read_at k (record o { fd = some n }) off sz
]

-- The result is the download, `true` for 0, and the bytes that reached the file.
unfoldable pub write_out : FileSys → Transfer → List ℕ → Transfer × Bool × List ℕ
write_out k d bytes = elim (k.write bytes) [
  | none ↦ (record d { fd = none }, false, [])
  | some n ↦
      if ltb n (length bytes)
      then (record d { fd = none }, false, take n bytes)
      else (d, true, bytes)
]

unfoldable pub download_write : FileSys → Transfer → List ℕ → Transfer × Bool × List ℕ
download_write k d bytes = elim (or_else d.fd (with_name k.created d.partname)) [
  | none ↦ (record d { fd = none }, false, [])
  | some n ↦ write_out k (record d { fd = some n }) bytes
]

unfoldable pub resume_at : Transfer → ℕ → Option ℕ → Transfer × Bool
resume_at d n none = (record d { fd = none }, false)
resume_at d n (some off) = (record d { fd = some n; offset = off }, true)

-- The result is `true` for 0.
unfoldable pub download_resume : FileSys → Transfer → Transfer × Bool
download_resume k d = elim d.fd [
  | some n ↦ (d, false)
  | none ↦ elim (with_name k.opened d.partname) [
    | none ↦ (d, false)
    | some n ↦ resume_at d n (k.end_of n)
  ]
]

-- `strrchr( s, '.' )`: the text before the last dot, and the text from it on.
unfoldable pub split_ext : List ℕ → List ℕ × List ℕ
split_ext [] = ([], [])
split_ext (c ∷ s) =
    let (stem, ext) = split_ext s in
    if c == b'.' && length ext == 0 then ([], c ∷ s) else (c ∷ stem, ext)

abbrev pub part_name : List ℕ → List ℕ
part_name name = name ++ codes ".part"

-- "%.*s.%d%s"; an `int` has at most ten digits.
unfoldable pub numbered : List ℕ → List ℕ → ℕ → List ℕ
numbered stem ext i = stem ++ (b'.' ∷ (decimal 10 i ++ ext))

-- `left` rounds are left, from `i` on. The name of the last round, the descriptor `fd1`, and the
-- files that were unlinked again, in order; each name is created at most once.
unfoldable pub try_names : FileSys → List ℕ → List ℕ → ℕ → ℕ → List ℕ × Option ℕ × List (List ℕ)
try_names k stem ext zero i = (numbered stem ext (i - 1), none, [])
try_names k stem ext (suc left) i =
    let rest = try_names k stem ext left (i + 1) in
    elim (k.created (numbered stem ext i)) [
      | none ↦ rest
      | some fd0 ↦ elim (k.created (part_name (numbered stem ext i))) [
        | none ↦ (rest.0, rest.1, numbered stem ext i ∷ rest.2)
        | some fd1 ↦ (numbered stem ext i, some fd1, [])
      ]
    ]

-- The rounds of `for ( int i = 1; i < INT_MAX; ++i )`.
abbrev pub name_rounds : ℕ
name_rounds = 2 ^ 31 - 2

-- The download, and the files that were unlinked.
unfoldable pub fresh_names : ℕ → FileSys → Transfer → List ℕ → Transfer × List (List ℕ)
fresh_names rounds k d s =
    let (stem, ext) = split_ext s in
    let (name, fd, gone) = try_names k stem ext rounds 1 in
    (record d { fd = fd; name = some name; partname = some (part_name name) }, gone)

unfoldable pub make_filenames : FileSys → Transfer → List ℕ → Bool → Transfer × List (List ℕ)
make_filenames k d s no_clobber =
    if no_clobber
    then fresh_names name_rounds k d s
    else (record d { name = some s; partname = some (part_name s) }, [])
