-- ===== src/Bit.antt =====
-- include/util/bit.hpp at a width of `w` bits: a value of the unsigned type `T` is a number below
-- `2 ^ w`, and `std::numeric_limits<T>::digits` is `w`.
pub mod Msb
pub mod Fields
pub mod Pow2
pub mod Log
mod Tests
use mpmc_queues.Base.{
  ℕ, zero, suc, ◌+◌, ◌-◌, ◌*◌, ◌/◌, ◌%◌, ◌^◌, bit_and, bit_or, Bool, true, false, not, ◌&&◌, ltb,
  ◌==◌, if◌then◌else◌,
}

module _ (w : ℕ) where
  unfoldable pub msb_mask : ℕ
  msb_mask = 2 ^ (w - 1)

  -- `~mask` flips the `w` bits.
  unfoldable pub non_msb_mask : ℕ
  unfolding msb_mask
  non_msb_mask = 2 ^ w - 1 - msb_mask

  unfoldable pub get_msb : ℕ → ℕ
  unfolding msb_mask
  get_msb value = bit_and value msb_mask

  unfoldable pub set_msb : ℕ → ℕ
  unfolding msb_mask
  set_msb value = bit_or value msb_mask

  unfoldable pub clear_msb : ℕ → ℕ
  unfolding non_msb_mask
  clear_msb value = bit_and value non_msb_mask

-- `out` and `w` are the widths of `OutT` and `InT`; a cast keeps the low bits.
unfoldable pub keep_low : (out : ℕ) → ℕ → ℕ
keep_low out value = value % 2 ^ out

unfoldable pub keep_high : (out : ℕ) → ℕ → ℕ
keep_high out value = value / 2 ^ out % 2 ^ out

unfoldable pub merge : (out w : ℕ) → ℕ → ℕ → ℕ
merge out w high low = bit_or (high * 2 ^ w % 2 ^ out) low

-- The two out parameters, `high` first.
unfoldable pub split : (w out : ℕ) → ℕ → ℕ × ℕ
split w out value = (if ltb out w then value / 2 ^ out % 2 ^ out else 0, value % 2 ^ out)

unfoldable pub is_pow2 : ℕ → Bool
is_pow2 n = not (n == 0) && bit_and n (n - 1) == 0

-- The loop `for (shift = 1; shift < digits; shift <<= 1) n |= n >> shift`.
unfoldable pub smear : (fuel digits shift n : ℕ) → ℕ
smear zero digits shift n = n
smear (suc fuel) digits shift n =
    let next = smear fuel digits (shift * 2) (bit_or n (n / 2 ^ shift)) in
    if ltb shift digits then next else n

-- The shift doubles from 1, so it passes `w` within `w` rounds.
unfoldable pub next_pow2 : (w n : ℕ) → ℕ
next_pow2 w n = if n == 0 then 1 else if is_pow2 n then n else (smear w w 1 (n - 1) + 1) % 2 ^ w

-- The loop `while (n >>= 1) ++r`, whose body runs at most once for each bit.
unfoldable pub log2_loop : (fuel n r : ℕ) → ℕ
log2_loop zero n r = r
log2_loop (suc fuel) n r =
    let rest = log2_loop fuel (n / 2) (r + 1) in if n / 2 == 0 then r else rest

unfoldable pub log2 : (w n : ℕ) → ℕ
log2 w n = log2_loop w n 0

-- The loop `while (n > 0) { n >>= 1; bits++; }`.
unfoldable pub bit_width_loop : (fuel n bits : ℕ) → ℕ
bit_width_loop zero n bits = bits
bit_width_loop (suc fuel) n bits =
    let rest = bit_width_loop fuel (n / 2) (bits + 1) in if n == 0 then bits else rest

-- `size_t` has 64 bits.
unfoldable pub bit_width : ℕ → ℕ
bit_width n = if n == 0 then 0 else bit_width_loop 65 n 0
