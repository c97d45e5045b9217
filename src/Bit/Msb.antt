-- ===== src/Bit/Msb.antt =====
-- The most significant bit of a `w`-bit word (`get_msb`, `set_msb`, `clear_msb` of
-- include/util/bit.hpp) splits the word at `2 ^ (w - 1)`.
use native.Mathlib.Nat.{pow-suc}
use mpmc_queues.Base.{
  ℕ, suc, ◌+◌, ◌-◌, ◌*◌, ◌%◌, ◌^◌, ◌≤◌, ◌<◌, ◌≡◌, ap, arith, bit_and-pow, bit_or-pow, bit_and-low,
  digit_of_lt, digit_top,
}
use mpmc_queues.Bit.{get_msb, set_msb, clear_msb}

top : (k : ℕ) → suc k - 1 ≡ k
top k = omega arith

-- The type has `suc k` bits: its top bit weighs `2 ^ k`.
module _ (k : ℕ) where
  pub get_msb-low : (a : ℕ) → a < 2 ^ k → get_msb (suc k) a ≡ 0
  unfolding get_msb
  get_msb-low a h = rw (top, bit_and-pow, digit_of_lt a k h) (omega arith)

  pub get_msb-high : (a : ℕ) → 2 ^ k ≤ a → a < 2 ^ suc k → get_msb (suc k) a ≡ 2 ^ k
  unfolding get_msb
  get_msb-high a h lt = rw (top, bit_and-pow, digit_top a k h lt) (omega arith)

  pub set_msb-low : (a : ℕ) → a < 2 ^ k → set_msb (suc k) a ≡ a + 2 ^ k
  unfolding set_msb
  set_msb-low a h =
      rw top (omega (arith, bit_or-pow a k, ap (λ (t : ℕ). t * 2 ^ k) (digit_of_lt a k h)))

  pub set_msb-high : (a : ℕ) → 2 ^ k ≤ a → a < 2 ^ suc k → set_msb (suc k) a ≡ a
  unfolding set_msb
  set_msb-high a h lt =
      rw top (omega (arith, bit_or-pow a k, ap (λ (t : ℕ). t * 2 ^ k) (digit_top a k h lt)))

  mask-eq : 2 ^ suc k - 1 - 2 ^ k ≡ 2 ^ k - 1
  mask-eq = omega (arith, pow-suc 2 k)

  pub clear_msb-mod : (a : ℕ) → clear_msb (suc k) a ≡ a % 2 ^ k
  unfolding clear_msb
  clear_msb-mod a = rw (top, mask-eq) (bit_and-low a k)
