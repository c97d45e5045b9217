-- ===== src/Faa.antt =====
-- include/queue/segment/FAAArray.hpp: `LinkedFAAArray`, an array of cells that are used once, one
-- shared access of one thread at a time. An item is a pointer above 1.
pub mod System
pub mod Counts
pub mod Inv
pub mod Steps
pub mod Safety
pub mod Alone
mod Tests
use mpmc_queues.Base.{
  ℕ, zero, suc, ◌+◌, ◌*◌, ◌%◌, ◌^◌, Bool, true, false, not, ◌&&◌, Option, none, some, ltb, leb,
  ◌==◌, if◌then◌else◌, update,
}

abbrev pub empty : ℕ
empty = 0

abbrev pub seen : ℕ
seen = 1

unfoldable pub reserved : ℕ → Bool
reserved item = leb item 1

abbrev pub max_patience : ℕ
max_patience = 4 * 1024

-- The atomics `tail`, `head` and `buffer`, and the pointer `next_`.
pub record Shared : Type 0 where
  pub tail : ℕ
  pub head : ℕ
  pub cells : ℕ → ℕ
  pub next : ℕ

-- `fetch_add` on a `uint64_t`.
abbrev pub add64 : ℕ → ℕ → ℕ
add64 a b = (a + b) % 2 ^ 64

-- The loop of `init_buffer_slots`, with the rounds left.
unfoldable pub init_buffer_slots : (rounds i : ℕ) → (ℕ → ℕ) → ℕ → ℕ
init_buffer_slots zero i cells = cells
init_buffer_slots (suc n) i cells = init_buffer_slots n (i + 1) (update cells i empty)

-- The constructors, on the raw memory `raw`; `create` asserts that the size is not 0.
unfoldable pub construct : (size : ℕ) → (raw : ℕ → ℕ) → Shared
construct size raw = record { tail = 0; head = 0; cells = init_buffer_slots size 0 raw; next = 0 }

unfoldable pub create : (size : ℕ) → (raw : ℕ → ℕ) → Option Shared
create size raw = if size == 0 then none else some (construct size raw)

-- The constructor with an item; `none` is a failed assertion.
unfoldable pub construct_with : (item size : ℕ) → (raw : ℕ → ℕ) → Option Shared
construct_with item size raw =
    if reserved item
    then none
    else some (record {
      tail = 1;
      head = 0;
      cells = update (init_buffer_slots size 0 raw) 0 item;
      next = 0;
    })

-- Where a thread stands; the last three are the returns of `enqueue`, `dequeue` and `close`.
pub data Pc : Type 0 where
  idle : Pc
  enq_add : (item : ℕ) → Pc
  enq_cas : (item t : ℕ) → Pc
  deq_add : Pc
  deq_look : (h : ℕ) → Pc
  deq_head : (h : ℕ) → Pc
  deq_wait : (h i : ℕ) → Pc
  deq_swap : (h : ℕ) → Pc
  closing : Pc
  enqueued : Bool → Pc
  dequeued : Option ℕ → Pc
  closed : Pc

pub data Call : Type 0 where
  enqueue : ℕ → Call
  dequeue : Call
  close : Call

-- `enqueue` asserts that the item is not reserved.
unfoldable pub call : Call → Pc
call (enqueue item) = if reserved item then idle else enq_add item
call dequeue = deq_add
call close = closing

-- One shared access.
unfoldable pub step : (size : ℕ) → Shared → Pc → Shared × Pc
step size m (enq_add item) = (
  record m { tail = add64 m.tail 1 },
  if leb size m.tail then enqueued false else enq_cas item m.tail,
)
step size m (enq_cas item t) =
    if m.cells t == empty
    then (record m { cells = update m.cells t item }, enqueued true)
    else (m, enq_add item)
step size m deq_add =
    (record m { head = add64 m.head 1 }, if leb size m.head then dequeued none else deq_look m.head)
step size m (deq_look h) = (m, if m.cells h == empty then deq_head h else deq_swap h)
step size m (deq_head h) = (m, if ltb h m.head then deq_wait h 0 else deq_swap h)
step size m (deq_wait h i) =
    (m, if m.cells h == empty && ltb (i + 1) max_patience then deq_wait h (i + 1) else deq_swap h)
step size m (deq_swap h) = (
  record m { cells = update m.cells h seen },
  if m.cells h == empty then deq_add else dequeued (some (m.cells h)),
)
step size m closing = (record m { tail = add64 m.tail size }, closed)
step size m idle = (m, idle)
step size m (enqueued b) = (m, enqueued b)
step size m (dequeued v) = (m, dequeued v)
step size m closed = (m, closed)

-- `open`, which the caller runs with exclusive ownership.
unfoldable pub open_segment : Shared → Shared
open_segment m = record m { head = 0; tail = 0 }

unfoldable pub is_closed : (size : ℕ) → Shared → Bool
is_closed size m = leb size m.tail
