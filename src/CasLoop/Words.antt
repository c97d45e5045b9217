-- ===== src/CasLoop/Words.antt =====
-- The word arithmetic of `CASLoopQueue` on tails of 64 bits: `is_closed_`, `close` and `size`.
use native.Mathlib.Nat.{mod-eq_of_lt}
use mpmc_queues.Base.{ℕ, ◌+◌, ◌-◌, ◌%◌, ◌^◌, ◌≤◌, ◌<◌, ◌≡◌, ◌∙◌, true, false, arith, bit_or, dec_lt}
use mpmc_queues.Bit.{set_msb}
use mpmc_queues.Bit.Msb.{get_msb-low, get_msb-high, set_msb-low, set_msb-high, clear_msb-mod}
use mpmc_queues.CasLoop.{Shared, is_closed, close_tail, add64, size}
use mpmc_queues.CasLoop.Spec.{tail_index}

-- A tail is closed exactly when its top bit is set.
pub is_closed-low : (t : ℕ) → t < 2 ^ 63 → is_closed t ≡ false
unfolding is_closed
is_closed-low t h = rw (get_msb-low 63 t h)

pub is_closed-high : (t : ℕ) → 2 ^ 63 ≤ t → t < 2 ^ 64 → is_closed t ≡ true
unfolding is_closed
is_closed-high t h lt = rw (get_msb-high 63 t h lt)

pub lt_of_open : (t : ℕ) → t < 2 ^ 64 → is_closed t ≡ false → t < 2 ^ 63
lt_of_open t lt o = elim (dec_lt t (2 ^ 63)) [
  | yes below ↦ below
  | no above ↦ absurd (cc (is_closed-high t (omega arith) lt))
]

pub or_msb : (t : ℕ) → t < 2 ^ 64 → bit_or t (set_msb 64 0) ≡ t % 2 ^ 63 + 2 ^ 63
or_msb t lt =
    let mask : set_msb 64 0 ≡ 2 ^ 63 = set_msb-low 63 0 (omega arith) in
    rw mask (elim (dec_lt t (2 ^ 63)) [
      | yes below ↦ unfold set_msb in (set_msb-low 63 t below ∙ omega arith)
      | no above ↦ unfold set_msb in (set_msb-high 63 t (omega arith) lt ∙ omega arith)
    ])

-- `close` sets the top bit, and keeps the index.
pub close_tail_lem :
    (m : Shared) → m.tail < 2 ^ 64 → close_tail m ≡ record m { tail = tail_index m + 2 ^ 63 }
unfolding close_tail
close_tail_lem m lt = rw (or_msb m.tail lt)

pub add64-eq : (a b : ℕ) → a + b < 2 ^ 64 → add64 a b ≡ a + b
add64-eq a b h = mod-eq_of_lt h

-- `size` counts the tickets out, whether the ring is closed or not.
pub size_lem : (m : Shared) → m.head ≤ tail_index m → size m ≡ tail_index m - m.head
unfolding size
size_lem m h = rw (clear_msb-mod 63) (omega arith)
