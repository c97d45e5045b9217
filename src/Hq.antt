-- ===== src/Hq.antt =====
-- include/queue/segment/HQSegment.hpp: `LinkedHQ`, an array of cells that are used once, whose
-- `dequeue` has a slow path while no next segment is linked; one shared access of one thread at a
-- time. An item is a pointer above 1.
pub mod System
pub mod Inv
pub mod Steps
pub mod Returns
pub mod Safety
pub mod Alone
pub mod Lost
pub mod Calls
mod Tests
use mpmc_queues.Base.{
  ℕ, zero, suc, ◌+◌, ◌*◌, ◌%◌, ◌^◌, Bool, true, false, not, ◌&&◌, Option, none, some, ltb, leb,
  ◌==◌, if◌then◌else◌, update,
}

abbrev pub empty : ℕ
empty = 0

abbrev pub seen : ℕ
seen = 1

abbrev pub max_patience : ℕ
max_patience = 4 * 1024

unfoldable pub reserved : ℕ → Bool
reserved item = leb item 1

-- The atomics `tail`, `head` and `buffer`, and the pointer `next_`.
pub record Shared : Type 0 where
  pub tail : ℕ
  pub head : ℕ
  pub cells : ℕ → ℕ
  pub next : ℕ

-- `fetch_add` on a `uint64_t`.
abbrev pub add64 : ℕ → ℕ → ℕ
add64 a b = (a + b) % 2 ^ 64

-- `memset` of the buffer to `EMPTY`, with the slots left.
unfoldable pub init_buffer_slots : (slots i : ℕ) → (ℕ → ℕ) → ℕ → ℕ
init_buffer_slots zero i cells = cells
init_buffer_slots (suc n) i cells = init_buffer_slots n (i + 1) (update cells i empty)

-- The constructors without an item, on the raw memory `raw`, where the assertion `size != 0` has held.
unfoldable pub construct : (size : ℕ) → (raw : ℕ → ℕ) → Shared
construct size raw = record { tail = 0; head = 0; cells = init_buffer_slots size 0 raw; next = 0 }

-- `none` is a failed assertion.
unfoldable pub create : (size : ℕ) → (raw : ℕ → ℕ) → Option Shared
create size raw = if size == 0 then none else some (construct size raw)

unfoldable pub construct_with : (item size : ℕ) → (raw : ℕ → ℕ) → Option Shared
construct_with item size raw =
    if reserved item
    then none
    else some (record {
      tail = 1;
      head = 0;
      cells = update (init_buffer_slots size 0 raw) 0 item;
      next = 0;
    })

-- Where a thread stands. `expected` is the local `empty` of `enqueue`, which a failed exchange
-- overwrites and the loop does not set back.
pub data Pc : Type 0 where
  idle : Pc
  enq_add : (item expected : ℕ) → Pc
  enq_cas : (item expected t : ℕ) → Pc
  deq_next : Pc
  fast_add : Pc
  fast_wait : (h i : ℕ) → Pc
  fast_swap : (h : ℕ) → Pc
  slow_head : Pc
  slow_item : (h : ℕ) → Pc
  slow_tail : (h item : ℕ) → Pc
  slow_again : (h item t : ℕ) → Pc
  slow_skip : (h : ℕ) → Pc
  slow_wait : (h i : ℕ) → Pc
  slow_swap : (h : ℕ) → Pc
  slow_help : (h item : ℕ) → Pc
  closing : Pc
  enqueued : Bool → Pc
  dequeued : Option ℕ → Pc
  closed : Pc

pub data Call : Type 0 where
  enqueue : ℕ → Call
  dequeue : Call
  close : Call

-- `enqueue` asserts that the item is not reserved.
unfoldable pub call : Call → Pc
call (enqueue item) = if reserved item then idle else enq_add item empty
call dequeue = deq_next
call close = closing

-- Past the exchange of `slowDequeue`.
unfoldable pub slow_result : (item : ℕ) → Pc
unfolding reserved
slow_result item = if reserved item then slow_head else dequeued (some item)

-- The weak exchange that helps `head` on; `weak` says that it fails for no reason.
unfoldable pub help_head : (weak : Bool) → Shared → (h : ℕ) → Shared
help_head weak m h = if not weak && m.head == h then record m { head = add64 h 1 } else m

-- One shared access.
unfoldable pub step : (size : ℕ) → (weak : Bool) → Shared → Pc → Shared × Pc
unfolding reserved slow_result help_head
step size weak m (enq_add item expected) = (
  record m { tail = add64 m.tail 1 },
  if leb size m.tail then enqueued false else enq_cas item expected m.tail,
)
step size weak m (enq_cas item expected t) =
    if m.cells t == expected
    then (record m { cells = update m.cells t item }, enqueued true)
    else (m, enq_add item (m.cells t))
step size weak m deq_next = (m, if m.next == 0 then slow_head else fast_add)
step size weak m fast_add = (
  record m { head = add64 m.head 1 },
  if leb size m.head then dequeued none else fast_wait m.head 0,
)
step size weak m (fast_wait h i) =
    (m, if ltb i max_patience && m.cells h == empty then fast_wait h (i + 1) else fast_swap h)
step size weak m (fast_swap h) = (
  record m { cells = update m.cells h seen },
  if reserved (m.cells h) then fast_add else dequeued (some (m.cells h)),
)
step size weak m slow_head = (m, if leb size m.head then dequeued none else slow_item m.head)
step size weak m (slow_item h) = (m, slow_tail h (m.cells h))
step size weak m (slow_tail h item) = (m, slow_again h item m.tail)
step size weak m (slow_again h item t) = (
  m,
  if h == m.head
      then if h == t
        then dequeued none
        else if item == seen
        then slow_skip h
        else if item == empty
        then slow_wait h 0
        else slow_swap h
      else slow_head,
)
step size weak m (slow_skip h) = (help_head weak m h, slow_head)
step size weak m (slow_wait h i) = (
  m,
  if ltb i max_patience
      then if m.cells h == seen
        then slow_skip h
        else if m.cells h == empty
        then slow_wait h (i + 1)
        else slow_swap h
      else slow_swap h,
)
step size weak m (slow_swap h) =
    (record m { cells = update m.cells h seen }, slow_help h (m.cells h))
step size weak m (slow_help h item) = (help_head weak m h, slow_result item)
step size weak m closing = (record m { tail = add64 m.tail size }, closed)
step size weak m idle = (m, idle)
step size weak m (enqueued b) = (m, enqueued b)
step size weak m (dequeued v) = (m, dequeued v)
step size weak m closed = (m, closed)

-- `open`, which the caller runs with exclusive ownership.
unfoldable pub open_segment : Shared → Shared
open_segment m = record m { head = 0; tail = 0 }

unfoldable pub is_closed : (size : ℕ) → Shared → Bool
is_closed size m = leb size m.tail
