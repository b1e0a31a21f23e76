-- ===== src/Bytes/Order.antt =====
-- lib/bendian.h: the byte order of the host does not show on the wire.
use frelay.Common.{ℕ, ◌+◌, ◌*◌, ◌/◌, ◌%◌, ◌^◌, ◌<◌, ◌≡◌, ◌∙◌, sym, ap, arith, List, [], ◌∷◌, length}
use frelay.Bytes.{
  ByteOrder, little_endian, big_endian, low_bytes, of_low_bytes, store, load, swap2, swap4, swap8,
  hton16, hton32, hton64, put16, put32, put64, get16, get32, get64,
}

pub put16_lem : (o : ByteOrder) (v : ℕ) → put16 o v ≡ v / 2 ^ 8 % 256 ∷ v % 256 ∷ []
unfolding put16 store hton16 swap2 low_bytes
put16_lem little_endian v = ground arith
put16_lem big_endian v = ground arith

pub put32_lem :
    (o : ByteOrder) (v : ℕ)
    → put32 o v ≡ v / 2 ^ 24 % 256 ∷ v / 2 ^ 16 % 256 ∷ v / 2 ^ 8 % 256 ∷ v % 256 ∷ []
unfolding put32 store hton32 swap4 low_bytes
put32_lem little_endian v = ground arith
put32_lem big_endian v = ground arith

put64_lem :
    (o : ByteOrder) (v : ℕ)
    → put64 o v
      ≡ v / 2 ^ 56 % 256
        ∷ v / 2 ^ 48 % 256
        ∷ v / 2 ^ 40 % 256
        ∷ v / 2 ^ 32 % 256
        ∷ v / 2 ^ 24 % 256
        ∷ v / 2 ^ 16 % 256
        ∷ v / 2 ^ 8 % 256
        ∷ v % 256
        ∷ []
unfolding put64 store hton64 swap8 low_bytes
put64_lem little_endian v = ground arith
put64_lem big_endian v = ground arith

pub get16-put16 : (o : ByteOrder) (v : ℕ) → get16 o (put16 o v) ≡ v % 2 ^ 16
unfolding put16 get16 store load hton16 swap2 low_bytes of_low_bytes
get16-put16 little_endian v = omega arith
get16-put16 big_endian v = omega arith

pub get32-put32 : (o : ByteOrder) (v : ℕ) → get32 o (put32 o v) ≡ v % 2 ^ 32
unfolding put32 get32 store load hton32 swap4 low_bytes of_low_bytes
get32-put32 little_endian v = omega arith
get32-put32 big_endian v = omega arith

-- The word that eight bytes below 256 make: the first is the most significant.
get64_lem :
    (o : ByteOrder) (a b c d e f g h : ℕ)
    → a < 256
    → b < 256
    → c < 256
    → d < 256
    → e < 256
    → f < 256
    → g < 256
    → h < 256
    → get64 o (a ∷ b ∷ c ∷ d ∷ e ∷ f ∷ g ∷ h ∷ [])
      ≡ a * 2 ^ 56 + b * 2 ^ 48 + c * 2 ^ 40 + d * 2 ^ 32 + e * 2 ^ 24 + f * 2 ^ 16 + g * 2 ^ 8 + h
unfolding get64 load hton64 swap8 of_low_bytes
get64_lem little_endian a b c d e f g h ha hb hc hd he hf hg hh = omega arith
get64_lem big_endian a b c d e f g h ha hb hc hd he hf hg hh = omega arith

byte_lt : (x : ℕ) → x % 256 < 256
byte_lt x = omega arith

pub get64-put64 : (o : ByteOrder) (v : ℕ) → get64 o (put64 o v) ≡ v % 2 ^ 64
get64-put64 o v =
    ap (get64 o) (put64_lem o v)
    ∙ get64_lem o (v / 2 ^ 56 % 256) (v / 2 ^ 48 % 256) (v / 2 ^ 40 % 256) (v / 2 ^ 32 % 256)
        (v / 2 ^ 24 % 256) (v / 2 ^ 16 % 256) (v / 2 ^ 8 % 256) (v % 256) (byte_lt _) (byte_lt _)
        (byte_lt _) (byte_lt _) (byte_lt _) (byte_lt _) (byte_lt _) (byte_lt _)
    ∙ omega arith

pub length-put16 : (o : ByteOrder) (v : ℕ) → length (put16 o v) ≡ 2
length-put16 o v = rw (put16_lem o v)

pub length-put32 : (o : ByteOrder) (v : ℕ) → length (put32 o v) ≡ 4
length-put32 o v = rw (put32_lem o v)

pub length-put64 : (o : ByteOrder) (v : ℕ) → length (put64 o v) ≡ 8
length-put64 o v = rw (put64_lem o v)

get16-lt : (xs : List ℕ) → get16 little_endian xs < 2 ^ 16
unfolding get16 hton16 swap2
get16-lt xs = omega arith

pub get64-lt : (xs : List ℕ) → get64 little_endian xs < 2 ^ 64
unfolding get64 hton64 swap8
get64-lt xs = omega arith

-- Words of all three widths are read back as they were written, cut to their width, on hosts of
-- either byte order; and both kinds of host put the same bytes on the wire.
pub words-roundtrip :
    (o : ByteOrder) (v : ℕ)
    → (get16 o (put16 o v) ≡ v % 2 ^ 16)
      × (get32 o (put32 o v) ≡ v % 2 ^ 32)
      × (get64 o (put64 o v) ≡ v % 2 ^ 64)
      × (put16 o v ≡ put16 big_endian v)
      × (put32 o v ≡ put32 big_endian v)
      × (put64 o v ≡ put64 big_endian v)
words-roundtrip o v = (
  get16-put16 o v,
  get32-put32 o v,
  get64-put64 o v,
  put16_lem o v ∙ sym (put16_lem big_endian v),
  put32_lem o v ∙ sym (put32_lem big_endian v),
  put64_lem o v ∙ sym (put64_lem big_endian v),
)
