-- ===== src/Prq.antt =====
-- include/queue/segment/PRQSegment.hpp: `PRQueue` and its linked form `LinkedPRQ`, one shared access of
-- one thread at a time. The constants of the constructor, `mod` and the cells are written as in
-- CASLoopSegment.hpp.
pub mod Step
pub mod Alone
mod Tests
use mpmc_queues.Base.{
  ℕ, zero, suc, ◌+◌, ◌-◌, ◌*◌, ◌%◌, ◌^◌, bit_and, bit_or, Bool, true, false, not, ◌&&◌, ◌||◌,
  Option, none, some, ltb, leb, ◌==◌, if◌then◌else◌, update,
}
use mpmc_queues.Bit.{get_msb, set_msb, clear_msb}
use mpmc_queues.CasLoop.{Cell, Ring, slot, make_ring, blank, add64}

-- The atomics: `head_`, `tail_`, the cells of `array_`, and the static counter of `threadReserved`.
pub record Shared : Type 0 where
  pub head : ℕ
  pub tail : ℕ
  pub cells : ℕ → Cell
  pub counter : ℕ

-- The loop of `init_slots`, with the rounds left.
unfoldable pub init_cells : Ring → (rounds i : ℕ) → (ℕ → Cell) → ℕ → Cell
init_cells r zero i cells = cells
init_cells r (suc n) i cells =
    init_cells r n (i + 1) (update cells (slot r i) (record { val = 0; seq = i }))

-- `none` is a failed assertion. The bound of the loop is a `uint64_t`.
unfoldable pub init_slots : Ring → (start counter : ℕ) → Option Shared
init_slots r start counter =
    if r.size == 0 || (r.pow2 && r.mask == 0) || not (get_msb 64 (add64 start r.size) == 0)
    then none
    else some (record {
      head = start;
      tail = start;
      cells = init_cells r (add64 start r.size - start) start blank;
      counter = counter;
    })

unfoldable pub construct : (pow2 linked : Bool) → (size start counter : ℕ) → Option (Ring × Shared)
construct pow2 linked size start counter =
    let r = make_ring pow2 linked size in
    elim (init_slots r start counter) [ none ↦ none | some m ↦ some (r, m) ]

-- The constructor with an item.
unfoldable pub construct_with :
    (pow2 linked : Bool) → (item size start counter : ℕ) → Option (Ring × Shared)
construct_with pow2 linked item size start counter =
    elim (construct pow2 linked size start counter) [
      | none ↦ none
      | some (r, m) ↦ some (
        r,
        record m {
          cells = update m.cells (slot r start) (record { val = item; seq = add64 start r.size });
          tail = add64 start 1;
        },
      )
    ]

unfoldable pub is_closed_ : ℕ → Bool
is_closed_ val = not (get_msb 64 val == 0)

unfoldable pub is_reserved : ℕ → Bool
is_reserved ptr = not (bit_and ptr 1 == 0)

-- The value that the first call of `threadReserved` of a thread keeps.
unfoldable pub thread_reserved : (counter : ℕ) → ℕ
thread_reserved counter = bit_or (counter * 2 % 2 ^ 64) 1

abbrev pub max_reload : ℕ
max_reload = 2 ^ 8 - 1

abbrev pub max_retry : ℕ
max_retry = 4 * 1024

-- Where a thread stands, with the local variables that are live there. `n` is `retry` and `tail` what
-- the dequeue last loaded of `tail_`, if it has; `undefined` is the use of what it has not loaded.
pub data Pc : Type 0 where
  idle : Pc
  enq_info : (item : ℕ) → Pc
  enq_add : (item : ℕ) → Pc
  enq_tag : (item t : ℕ) → Pc
  enq_seq : (item t tagged : ℕ) → Pc
  enq_val : (item t tagged seq : ℕ) → Pc
  enq_head : (item t tagged seq : ℕ) → Pc
  enq_reserve : (item t tagged seq : ℕ) → Pc
  enq_mark : (item t tagged seq : ℕ) → Pc
  enq_put : (item t tagged : ℕ) → Pc
  enq_unset : (item t tagged : ℕ) → Pc
  enq_full : (item t : ℕ) → Pc
  enq_close : Pc
  deq_add : Pc
  deq_seq : (h n : ℕ) (tail : Option ℕ) → Pc
  deq_val : (h n : ℕ) (tail : Option ℕ) (packed : ℕ) → Pc
  deq_same : (h n : ℕ) (tail : Option ℕ) (packed val : ℕ) → Pc
  deq_take : (h val : ℕ) → Pc
  deq_still : (h n : ℕ) (tail : Option ℕ) (packed : ℕ) → Pc
  deq_mark : (h n : ℕ) (tail : Option ℕ) (packed : ℕ) → Pc
  deq_load : (h n packed val : ℕ) → Pc
  deq_clear : (h n : ℕ) (tail : Option ℕ) (packed val : ℕ) → Pc
  deq_skip : (h n : ℕ) (tail : Option ℕ) (packed : ℕ) → Pc
  deq_tail : (h : ℕ) → Pc
  fix_tail : Pc
  fix_head : (t : ℕ) → Pc
  fix_cas : (t h : ℕ) → Pc
  shut : Pc
  enqueued : Bool → Pc
  dequeued : Option ℕ → Pc
  closed : Pc
  undefined : Pc

-- The calls that a thread may make; `info` is the second argument of `LinkedPRQ::enqueue`.
pub data Call : Type 0 where
  enqueue : (info : Bool) → ℕ → Call
  dequeue : Call
  close : Call

-- A plain `PRQueue` has no `info` and no `close`.
unfoldable pub call : Ring → Call → Pc
call r (enqueue info item) = if r.linked && info then enq_info item else enq_add item
call r dequeue = deq_add
call r close = if r.linked then shut else idle

unfoldable pub close_tail : Shared → Shared
close_tail m = record m { tail = bit_or m.tail (set_msb 64 0) }

abbrev pub set_val : Ring → Shared → (ticket val : ℕ) → Shared
set_val r m i v = record m {
  cells = update m.cells (slot r i) (record (m.cells (slot r i)) { val = v });
}

abbrev pub set_seq : Ring → Shared → (ticket seq : ℕ) → Shared
set_seq r m i s = record m {
  cells = update m.cells (slot r i) (record (m.cells (slot r i)) { seq = s });
}

-- `retry` is an `unsigned int`.
abbrev pub add32 : ℕ → ℕ → ℕ
add32 a b = (a + b) % 2 ^ 32

unfoldable pub size : Shared → ℕ
size m = let t = clear_msb 64 m.tail in if ltb m.head t then t - m.head else 0

-- `isClosed`, read at one moment, and `open`, which the caller runs with exclusive ownership: the
-- state and `next_` afterwards.
unfoldable pub is_closed : Shared → Bool
is_closed m = is_closed_ m.tail

unfoldable pub open_segment : Shared → (next : ℕ) → Shared × ℕ
open_segment m next = if get_msb 64 m.tail == 0 then (m, next) else (record m { tail = m.head }, 0)
