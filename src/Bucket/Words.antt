-- ===== src/Bucket/Words.antt =====
-- The two indices in the state of a `PhasedBucket`.
use mpmc_queues.Base.{ℕ, ◌+◌, ◌-◌, ◌*◌, ◌^◌, ◌<◌, ◌≡◌, arith, bit_and, bit_and-low, bit_and-high}
use mpmc_queues.Bucket.{tail_of}

module _ (t h : ℕ) (lt : t < 2 ^ 32) (lh : h < 2 ^ 32) where
  pub head_part : bit_and (t * 2 ^ 32 + h) (2 ^ 32 - 1) ≡ h
  head_part = omega (arith, bit_and-low (t * 2 ^ 32 + h) 32)

  pub tail_part : bit_and (t * 2 ^ 32 + h) (2 ^ 64 - 2 ^ 32) ≡ t * 2 ^ 32
  tail_part = omega (arith, bit_and-high (t * 2 ^ 32 + h) 64 32 (omega arith) (omega arith))

  pub tail_index : tail_of (t * 2 ^ 32 + h) ≡ t
  tail_index = omega arith
