-- ===== src/Bit/Log.antt =====
-- `log2` and `bit_width` of include/util/bit.hpp are the floor of the logarithm and the number of
-- significant bits.
use native.Mathlib.Nat.{pow-suc}
use mpmc_queues.Base.{
  ℕ, zero, suc, ◌+◌, ◌*◌, ◌/◌, ◌^◌, ◌≤◌, ◌<◌, max, ◌≡◌, ◌≢◌, Bool-cases, inl, inr, ◌==◌, arith,
}
use mpmc_queues.Bit.{log2, log2_loop, bit_width, bit_width_loop}

-- From `n`, the loop counts up to the largest power of two that is at most `n`.
log2_loop_bounds :
    (fuel n r : ℕ)
    → n ≢ 0
    → n < 2 ^ fuel
    → (k : ℕ) × (log2_loop fuel n r ≡ r + k) × (2 ^ k ≤ n) × (n < 2 ^ suc k)
unfolding log2_loop
log2_loop_bounds zero n r h lt = absurd (omega arith)
log2_loop_bounds (suc fuel) n r h lt = elim (Bool-cases (n / 2 == 0)) [
  | inl done ↦ (0, rw done (omega arith), omega arith, ground arith)
  | inr more ↦
      let (k, e, lo, hi) =
        log2_loop_bounds fuel (n / 2) (r + 1) (ground arith) (omega (arith, pow-suc 2 fuel)) in
      (suc k, rw more (omega arith), omega (arith, pow-suc 2 k), omega (arith, pow-suc 2 (suc k)))
]

-- For a non-zero `n` of `w` bits, `2 ^ log2 n` is the largest power of two that is at most `n`.
pub log2_bounds : (w n : ℕ) → n ≢ 0 → n < 2 ^ w → (2 ^ log2 w n ≤ n) × (n < 2 ^ suc (log2 w n))
unfolding log2
log2_bounds w n h lt =
    let (k, e, lo, hi) = log2_loop_bounds w n 0 h lt in
    let e' : log2_loop w n 0 ≡ k = omega arith in rw e' (lo, hi)

bit_width_loop_bounds :
    (fuel n bits : ℕ)
    → n < 2 ^ fuel
    → (k : ℕ) × (bit_width_loop (suc fuel) n bits ≡ bits + k)
      × (n < 2 ^ k)
      × (2 ^ k ≤ max 1 (2 * n))
unfolding bit_width_loop
bit_width_loop_bounds zero n bits lt = (0, ground arith, omega arith, omega arith)
bit_width_loop_bounds (suc fuel) n bits lt = elim (Bool-cases (n == 0)) [
  | inl done ↦ (0, rw done (omega arith), ground arith, ground arith)
  | inr more ↦
      let (k, e, lo, hi) =
        bit_width_loop_bounds fuel (n / 2) (bits + 1) (omega (arith, pow-suc 2 fuel)) in
      (suc k, rw more (omega arith), omega (arith, pow-suc 2 k), ground (arith, pow-suc 2 k))
]

-- `bit_width n` is the least number of bits that hold `n`, for every `size_t` value.
pub bit_width_bounds :
    (n : ℕ) → n < 2 ^ 64 → (n < 2 ^ bit_width n) × (n ≢ 0 → 2 ^ bit_width n ≤ 2 * n)
unfolding bit_width
bit_width_bounds n lt = elim (Bool-cases (n == 0)) [
  | inl empty ↦ rw empty (ground arith, λ h. absurd (ground arith))
  | inr more ↦
      let (k, e, hi, lo) = bit_width_loop_bounds 64 n 0 lt in
      let e' : bit_width_loop 65 n 0 ≡ k = omega arith in rw (more, e') (hi, λ h. omega arith)
]
