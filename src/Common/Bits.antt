-- ===== src/Common/Bits.antt =====
-- The bit operations at variables: one binary digit at a time, and the masks of message types.
use Prim.Native.Nat.{
  ℕ, zero, suc, ◌+◌, ◌*◌, ◌/◌, ◌%◌, ◌^◌, ◌≤◌, ◌<◌, min, max, bit_and, bit_or, digits, bitwise,
  bit_and-bitwise, bit_or-bitwise,
}
use mathlib.Core.Path.{◌≡◌, refl, ap}
use native.Mathlib.Omega.{arith}

-- Any operation that acts digit by digit, and on missing digits as on zeros.
module _ (z : ℕ → ℕ) (f : ℕ → ℕ → ℕ) (pads : (b : ℕ) → z b ≡ z (b / 2) * 2 + f 0 (b % 2)) where
  more_digits : (n m a b : ℕ) → a ≤ n → a ≤ m → digits z f n a b ≡ digits z f m a b
  more_digits zero zero a b h k = refl
  more_digits zero (suc m) zero b h k = refl
  more_digits zero (suc m) (suc a) b h k = absurd (omega arith)
  more_digits (suc n) zero zero b h k = refl
  more_digits (suc n) zero (suc a) b h k = absurd (omega arith)
  more_digits (suc n) (suc m) zero b h k = refl
  more_digits (suc n) (suc m) (suc a) b h k =
      ap (λ x. x * 2 + f (suc a % 2) (b % 2))
        (more_digits n m (suc a / 2) (b / 2) (omega arith) (omega arith))

  lowest_digit : (a b : ℕ) → bitwise z f a b ≡ bitwise z f (a / 2) (b / 2) * 2 + f (a % 2) (b % 2)
  lowest_digit zero b = pads b
  lowest_digit (suc a) b =
      ap (λ x. x * 2 + f (suc a % 2) (b % 2))
        (more_digits a (suc a / 2) (suc a / 2) (b / 2) (omega arith) (omega arith))

pub bit_and-digit : (a b : ℕ) → bit_and a b ≡ bit_and (a / 2) (b / 2) * 2 + min (a % 2) (b % 2)
bit_and-digit a b = omega (
  arith,
  bit_and-bitwise a b,
  bit_and-bitwise (a / 2) (b / 2),
  lowest_digit (λ _. 0) min (λ b. omega arith) a b,
)

pub bit_or-digit : (a b : ℕ) → bit_or a b ≡ bit_or (a / 2) (b / 2) * 2 + max (a % 2) (b % 2)
bit_or-digit a b = omega (
  arith,
  bit_or-bitwise a b,
  bit_or-bitwise (a / 2) (b / 2),
  lowest_digit (λ b. b) max (λ b. omega arith) a b,
)

zero_below : (n a : ℕ) → a ≤ n → bit_and a 0 ≡ 0
zero_below n zero h = refl
zero_below zero (suc a) h = absurd (omega arith)
zero_below (suc n) (suc a) h =
    omega (arith, bit_and-digit (suc a) 0, zero_below n (suc a / 2) (omega arith))

bit_and-zero : (a : ℕ) → bit_and a 0 ≡ 0
bit_and-zero a = zero_below a a (omega arith)

or_zero_below : (n a : ℕ) → a ≤ n → bit_or a 0 ≡ a
or_zero_below n zero h = refl
or_zero_below zero (suc a) h = absurd (omega arith)
or_zero_below (suc n) (suc a) h =
    omega (arith, bit_or-digit (suc a) 0, or_zero_below n (suc a / 2) (omega arith))

bit_or-zero : (a : ℕ) → bit_or a 0 ≡ a
bit_or-zero a = or_zero_below a a (omega arith)

pub bit_and-0xf : (a : ℕ) → bit_and a 0xf ≡ a % 16
bit_and-0xf a = omega (
  arith,
  bit_and-digit a 0xf,
  bit_and-digit (a / 2) 0x7,
  bit_and-digit (a / 2 / 2) 0x3,
  bit_and-digit (a / 2 / 2 / 2) 0x1,
  bit_and-zero (a / 2 / 2 / 2 / 2),
)

nibble : (a m : ℕ) → m % 16 ≡ 15 → bit_and a m ≡ bit_and (a / 16) (m / 16) * 16 + a % 16
nibble a m h = omega (
  arith,
  bit_and-digit a m,
  bit_and-digit (a / 2) (m / 2),
  bit_and-digit (a / 2 / 2) (m / 2 / 2),
  bit_and-digit (a / 2 / 2 / 2) (m / 2 / 2 / 2),
  ap (λ x. bit_and x (m / 16)) (quarter a),
  ap (λ x. bit_and (a / 2 / 2 / 2 / 2) x) (quarter m),
)
  where
    quarter : (x : ℕ) → x / 2 / 2 / 2 / 2 ≡ x / 16
    quarter x = omega arith

no_nibble : (a m : ℕ) → m % 16 ≡ 0 → bit_and a m ≡ bit_and (a / 16) (m / 16) * 16
no_nibble a m h = omega (
  arith,
  bit_and-digit a m,
  bit_and-digit (a / 2) (m / 2),
  bit_and-digit (a / 2 / 2) (m / 2 / 2),
  bit_and-digit (a / 2 / 2 / 2) (m / 2 / 2 / 2),
  ap (λ x. bit_and x (m / 16)) (quarter a),
  ap (λ x. bit_and (a / 2 / 2 / 2 / 2) x) (quarter m),
)
  where
    quarter : (x : ℕ) → x / 2 / 2 / 2 / 2 ≡ x / 16
    quarter x = omega arith

-- A 16-bit word without its lowest four bits.
pub bit_and-0xfff0 : (a : ℕ) → a < 2 ^ 16 → bit_and a 0xfff0 ≡ a / 16 * 16
bit_and-0xfff0 a h = omega (
  arith,
  no_nibble a 0xfff0 refl,
  nibble (a / 16) 0xfff refl,
  nibble (a / 16 / 16) 0xff refl,
  nibble (a / 16 / 16 / 16) 0xf refl,
  bit_and-zero (a / 16 / 16 / 16 / 16),
)

pub bit_or-0x2 : (a : ℕ) → a % 16 ≡ 0 → bit_or a 0x2 ≡ a + 2
bit_or-0x2 a h =
    omega (arith, bit_or-digit a 0x2, bit_or-digit (a / 2) 0x1, bit_or-zero (a / 2 / 2))

pub bit_or-0xa : (a : ℕ) → a % 16 ≡ 0 → bit_or a 0xa ≡ a + 10
bit_or-0xa a h = omega (
  arith,
  bit_or-digit a 0xa,
  bit_or-digit (a / 2) 0x5,
  bit_or-digit (a / 2 / 2) 0x2,
  bit_or-digit (a / 2 / 2 / 2) 0x1,
  bit_or-zero (a / 2 / 2 / 2 / 2),
)
