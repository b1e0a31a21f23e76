-- ===== src/Message/Class.antt =====
-- message.h: the class of a message in the low four bits of its type.
use frelay.Common.{ℕ, ◌+◌, ◌*◌, ◌/◌, ◌%◌, ◌^◌, ◌<◌, ◌≡◌, arith, true}
use frelay.Common.Bits.{bit_and-0xf, bit_and-0xfff0, bit_or-0x2, bit_or-0xa}
use frelay.Message.{mclass_to_res, mclass_to_err, mtype_get_class, mclass_is_res, mclass_is_err}

mtype_get_class_lem : (t : ℕ) → mtype_get_class t ≡ t % 16
unfolding mtype_get_class
mtype_get_class_lem t = bit_and-0xf t

mclass_to_res_lem : (t : ℕ) → t < 2 ^ 16 → mclass_to_res t ≡ t / 16 * 16 + 2
unfolding mclass_to_res
mclass_to_res_lem t h = rw (bit_and-0xfff0 t h) (bit_or-0x2 (t / 16 * 16) (omega arith))

mclass_to_err_lem : (t : ℕ) → t < 2 ^ 16 → mclass_to_err t ≡ t / 16 * 16 + 10
unfolding mclass_to_err
mclass_to_err_lem t h = rw (bit_and-0xfff0 t h) (bit_or-0xa (t / 16 * 16) (omega arith))

-- The conversions give the class that they name and keep the twelve bits of the message type.
mclass_conversions :
    (t : ℕ)
    → t < 2 ^ 16
    → (mclass_is_res (mclass_to_res t) ≡ true)
      × (mclass_is_err (mclass_to_err (mclass_to_res t)) ≡ true)
      × (mclass_to_res t / 16 ≡ t / 16)
      × (mclass_to_err (mclass_to_res t) / 16 ≡ t / 16)
unfolding mclass_is_res mclass_is_err
mclass_conversions t h = ground (
  arith,
  mclass_to_res_lem t h,
  mclass_to_err_lem (mclass_to_res t),
  mtype_get_class_lem (mclass_to_res t),
  mtype_get_class_lem (mclass_to_err (mclass_to_res t)),
)
