-- ===== src/Bytes.antt =====
-- Byte order conversion, lib/bendian.h: words in memory, `HTON16` to `NTOH64` on a host of either
-- byte order, and the two composed into accesses of a network-order word in a buffer.
pub mod Order
use mathlib.Core.List.{reverse}
use frelay.Common.{ℕ, zero, suc, ◌+◌, ◌*◌, ◌/◌, ◌%◌, ◌^◌, List, [], ◌∷◌, slice, write}

-- `__BYTE_ORDER` of the host.
pub data ByteOrder : Type 0 where
  little_endian big_endian : ByteOrder

-- The `n` low bytes of a word, the lowest first, and the word that they make.
unfoldable pub low_bytes : ℕ → ℕ → List ℕ
low_bytes zero v = []
low_bytes (suc n) v = v % 256 ∷ low_bytes n (v / 256)

unfoldable pub of_low_bytes : List ℕ → ℕ
of_low_bytes [] = 0
of_low_bytes (x ∷ xs) = x + 256 * of_low_bytes xs

-- `*(uintN_t *)p = v` and `*(uintN_t *)p` for a word of `n` bytes.
unfoldable pub store : ByteOrder → ℕ → ℕ → List ℕ
store little_endian n v = low_bytes n v
store big_endian n v = reverse (low_bytes n v)

unfoldable pub load : ByteOrder → List ℕ → ℕ
load little_endian xs = of_low_bytes xs
load big_endian xs = of_low_bytes (reverse xs)

-- `x & (0xFF << t)`. The masks keep the bytes of a SWAP macro apart, so `|` between them is a sum.
abbrev mask : ℕ → ℕ → ℕ
mask x t = x / 2 ^ t % 256 * 2 ^ t

unfoldable pub swap2 : ℕ → ℕ
swap2 v = mask (v / 2 ^ 8) 0 + mask (v * 2 ^ 8) 8

unfoldable pub swap4 : ℕ → ℕ
swap4 v = mask (v / 2 ^ 24) 0 + mask (v / 2 ^ 8) 8 + mask (v * 2 ^ 8) 16 + mask (v * 2 ^ 24) 24

unfoldable pub swap8 : ℕ → ℕ
swap8 v =
    mask (v / 2 ^ 56) 0
    + mask (v / 2 ^ 40) 8
    + mask (v / 2 ^ 24) 16
    + mask (v / 2 ^ 8) 24
    + mask (v * 2 ^ 8) 32
    + mask (v * 2 ^ 24) 40
    + mask (v * 2 ^ 40) 48
    + mask (v * 2 ^ 56) 56

-- `HTON16(V)` and `NTOH16(V)` are one macro on either host, and so are the wider ones.
unfoldable pub hton16 : ByteOrder → ℕ → ℕ
hton16 big_endian v = v
hton16 little_endian v = swap2 (v % 2 ^ 16)

unfoldable pub hton32 : ByteOrder → ℕ → ℕ
hton32 big_endian v = v
hton32 little_endian v = swap4 (v % 2 ^ 32)

unfoldable pub hton64 : ByteOrder → ℕ → ℕ
hton64 big_endian v = v
hton64 little_endian v = swap8 (v % 2 ^ 64)

-- What an assignment of `HTONn(V)` leaves in memory, and what `NTOHn` of a word in memory gives.
unfoldable pub put16 : ByteOrder → ℕ → List ℕ
put16 o v = store o 2 (hton16 o v)

unfoldable pub put32 : ByteOrder → ℕ → List ℕ
put32 o v = store o 4 (hton32 o v)

unfoldable pub put64 : ByteOrder → ℕ → List ℕ
put64 o v = store o 8 (hton64 o v)

unfoldable pub get16 : ByteOrder → List ℕ → ℕ
get16 o xs = hton16 o (load o xs)

unfoldable pub get32 : ByteOrder → List ℕ → ℕ
get32 o xs = hton32 o (load o xs)

unfoldable pub get64 : ByteOrder → List ℕ → ℕ
get64 o xs = hton64 o (load o xs)
