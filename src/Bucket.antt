-- ===== src/Bucket.antt =====
-- include/util/hazard/Recycler/Buckets.hpp: `PhasedBucket`, which is filled in one phase and drained
-- in the next. Each function is one thread's run; the asserts of a debug build are checked.
pub mod Words
pub mod Steps
pub mod Overflow
pub mod Phases
mod Tests
use mpmc_queues.Base.{
  ℕ, zero, suc, ◌+◌, ◌-◌, ◌*◌, ◌/◌, ◌%◌, ◌^◌, min, bit_and, Bool, true, false, not, ◌&&◌, ◌||◌,
  Option, none, some, List, [], ◌∷◌, ltb, leb, ◌==◌, if◌then◌else◌, update,
}

-- `state_` and `buffer_`.
pub record Phased : Type 0 where
  pub state : ℕ
  pub buffer : ℕ → ℕ

abbrev pub head_inc : ℕ
head_inc = 1

abbrev pub head_mask : ℕ
head_mask = 2 ^ 32 - 1

abbrev pub tail_inc : ℕ
tail_inc = 2 ^ 32

abbrev pub tail_mask : ℕ
tail_mask = 2 ^ 64 - 2 ^ 32

abbrev pub add64 : ℕ → ℕ → ℕ
add64 a b = (a + b) % 2 ^ 64

-- `static_cast<uint32_t>(state >> SHIFT)`
abbrev pub tail_of : ℕ → ℕ
tail_of s = s / 2 ^ 32 % 2 ^ 32

module _ (capacity : ℕ) where
  abbrev pub empty_val : ℕ
  empty_val = capacity

  unfoldable pub construct : Phased
  construct = record { state = 0; buffer = λ _. empty_val }

  -- `none` is a failed assertion.
  unfoldable pub enqueue : (item : ℕ) → Phased → Option Phased
  enqueue item b =
      let old = b.state in
      let bumped = add64 old tail_inc in
      let state' = if bit_and old head_mask == 0 then bumped else bit_and bumped tail_mask in
      if item == empty_val
        || leb capacity (tail_of old)
        || not (b.buffer (tail_of old) == empty_val)
      then none
      else some (record { state = state'; buffer = update b.buffer (tail_of old) item })

  unfoldable pub dequeue : Phased → Phased × Option ℕ
  dequeue b =
      let old = b.state in
      let bumped = add64 old head_inc in
      let head_idx = bit_and old head_mask in
      let val = b.buffer head_idx in
      if ltb head_idx capacity && not (val == empty_val)
      then (record { state = bumped; buffer = update b.buffer head_idx empty_val }, some val)
      else (
        record b {
          state = if bit_and old tail_mask == 0 then bumped else bit_and bumped head_mask;
        },
        none,
      )

  unfoldable pub reset : Phased → Phased
  reset b = record b { state = 0 }

  -- The subtraction is one of `size_t`.
  unfoldable pub size : Phased → ℕ
  size b =
      let t = tail_of b.state in
      let h = bit_and b.state head_mask in
      if ltb t h then 0 else ((if ltb capacity t then capacity else t) + 2 ^ 64 - h) % 2 ^ 64

  -- A phase of enqueues, and one of `n` dequeues.
  unfoldable pub fill : List ℕ → Phased → Option Phased
  fill [] b = some b
  fill (x ∷ xs) b = elim (enqueue x b) [ none ↦ none | some b' ↦ fill xs b' ]

  unfoldable pub drain : (n : ℕ) → Phased → Phased × List (Option ℕ)
  drain zero b = (b, [])
  drain (suc n) b = let (b', got) = dequeue b in let (b'', rest) = drain n b' in (b'', got ∷ rest)
