-- ===== src/Bit/Tests.antt =====
-- include/util/bit.hpp at concrete words.
use mpmc_queues.Base.{ℕ, ◌*◌, ◌^◌, ◌≤◌, ◌<◌, ◌≡◌, refl, true, arith}
use mpmc_queues.Bit.{is_pow2, next_pow2, smear}
use mpmc_queues.Bit.Pow2.{next_pow2_least, is_pow2_exact}

next_pow2-5 : next_pow2 8 5 ≡ 8
unfolding next_pow2 is_pow2 smear
next_pow2-5 = refl

-- Past the highest power of two the result wraps to 0.
next_pow2-200 : next_pow2 8 200 ≡ 0
unfolding next_pow2 is_pow2 smear
next_pow2-200 = refl

next_pow2_least_example : (k : ℕ) × (next_pow2 8 5 ≡ 2 ^ k) × (5 ≤ 2 ^ k) × (2 ^ k < 2 * 5)
next_pow2_least_example = next_pow2_least 7 5 (omega arith) (omega arith)

is_pow2_exact_example :
    (is_pow2 64 ≡ true → (k : ℕ) × (◌≡◌ {A = ℕ} 64 (2 ^ k)))
    × ((k : ℕ) → ◌≡◌ {A = ℕ} 64 (2 ^ k) → is_pow2 64 ≡ true)
is_pow2_exact_example = is_pow2_exact 64
