-- ===== src/CasLoop.antt =====
-- include/queue/segment/CASLoopSegment.hpp with its cells (include/queue/cell/SequencedCell.hpp):
-- `CASLoopQueue` and its linked form `LinkedCASLoop`, one shared access of one thread at a time.
pub mod System
pub mod Spec
pub mod Words
pub mod Inv
pub mod Refine
pub mod Safety
pub mod Alone
pub mod Segment
pub mod Linked
mod Tests
use mpmc_queues.Base.{
  ℕ, zero, suc, ◌+◌, ◌-◌, ◌%◌, ◌^◌, bit_and, bit_or, Bool, true, false, not, ◌&&◌, ◌||◌, Option,
  none, some, ltb, ◌==◌, if◌then◌else◌, update,
}
use mpmc_queues.Bit.{get_msb, set_msb, clear_msb, is_pow2, next_pow2}

-- `SequencedCell`; a pointer is a number, and the null pointer is 0.
pub record Cell : Type 0 where
  pub val : ℕ
  pub seq : ℕ

-- What the constructor fixes. `pow2` is the option `Pow2Size`; `linked` is `AUTO_CLOSE`, which
-- holds exactly for the linked form.
pub record Ring : Type 0 where
  pub pow2 : Bool
  pub linked : Bool
  pub size : ℕ
  pub mask : ℕ

-- The atomics: `head_`, `tail_` and the cells of `array_`.
pub record Shared : Type 0 where
  pub head : ℕ
  pub tail : ℕ
  pub cells : ℕ → Cell

-- `uint64_t` addition.
abbrev pub add64 : ℕ → ℕ → ℕ
add64 a b = (a + b) % 2 ^ 64

abbrev pub sub64 : ℕ → ℕ → ℕ
sub64 a b = (a + 2 ^ 64 - b) % 2 ^ 64

-- `(int64_t)a - (int64_t)b < 0`: the order of the two's complement readings.
abbrev pub signed_lt : ℕ → ℕ → Bool
signed_lt a b = ltb (add64 a (2 ^ 63)) (add64 b (2 ^ 63))

unfoldable pub slot : Ring → ℕ → ℕ
slot r i = if r.pow2 then bit_and i r.mask else i % r.size

unfoldable pub real_size : Bool → ℕ → ℕ
real_size pow2 size = if pow2 && not (is_pow2 size) then next_pow2 64 size else size

unfoldable pub make_ring : (pow2 linked : Bool) → ℕ → Ring
make_ring pow2 linked size =
    let size' = real_size pow2 size in
    record {
      pow2 = pow2;
      linked = linked;
      size = size';
      mask = if pow2 && not (size' == 1) then size' - 1 else 0;
    }

-- The loop of `init_slots`, with the rounds left.
unfoldable pub init_cells : Ring → (rounds i : ℕ) → (ℕ → Cell) → ℕ → Cell
init_cells r zero i cells = cells
init_cells r (suc n) i cells =
    init_cells r n (i + 1) (update cells (slot r i) (record { val = 0; seq = i }))

-- Raw memory before the constructor runs.
abbrev pub blank : ℕ → Cell
blank _ = record { val = 0; seq = 0 }

unfoldable pub init_slots : Ring → ℕ → Shared
unfolding init_cells
init_slots r start = record { head = start; tail = start; cells = init_cells r r.size start blank }

-- The constructor; `none` is a failed assertion.
unfoldable pub construct : (pow2 linked : Bool) → (size start : ℕ) → Option (Ring × Shared)
construct pow2 linked size start =
    let r = make_ring pow2 linked size in
    if r.size == 0 || (pow2 && r.mask == 0) then none else some (r, init_slots r start)

-- The constructor with an item. It writes the cell of index `mod(0)`, whatever `start` is.
unfoldable pub construct_with :
    (pow2 linked : Bool) → (item size start : ℕ) → Option (Ring × Shared)
construct_with pow2 linked item size start = elim (construct pow2 linked size start) [
  | none ↦ none
  | some (r, m) ↦ some (
    r,
    record m {
      cells = update m.cells (slot r 0) (record { val = item; seq = add64 start 1 });
      tail = add64 m.tail 1;
    },
  )
]

unfoldable pub is_closed : ℕ → Bool
is_closed tail = not (get_msb 64 tail == 0)

-- Where a thread stands, with the local variables that are live there. The last three are the
-- returns of `enqueue`, `dequeue` and `close`.
pub data Pc : Type 0 where
  idle : Pc
  enq_tail : (item : ℕ) → Pc
  enq_seq : (item t : ℕ) → Pc
  enq_cas : (item t seq : ℕ) → Pc
  enq_val : (item t seq : ℕ) → Pc
  enq_pub : (item t seq : ℕ) → Pc
  enq_close : (item : ℕ) → Pc
  deq_head : Pc
  deq_seq : (h : ℕ) → Pc
  deq_cas : (h : ℕ) → Pc
  deq_val : (h : ℕ) → Pc
  deq_pub : (h v : ℕ) → Pc
  deq_size_tail : Pc
  deq_size_head : (t : ℕ) → Pc
  closing : Pc
  enqueued : Bool → Pc
  dequeued : Option ℕ → Pc
  closed : Pc

-- The calls that a thread may make.
pub data Call : Type 0 where
  enqueue : ℕ → Call
  dequeue : Call
  close : Call

-- A plain `CASLoopQueue` has no `close`.
unfoldable pub call : Ring → Call → Pc
call r (enqueue item) = enq_tail item
call r dequeue = deq_head
call r close = if r.linked then closing else idle

-- `tail_.fetch_or(set_msb(0))`
unfoldable pub close_tail : Shared → Shared
close_tail m = record m { tail = bit_or m.tail (set_msb 64 0) }

-- One shared access. `weak` says that a `compare_exchange_weak` fails spuriously.
unfoldable pub step : Ring → Bool → Shared → Pc → Shared × Pc
step r weak m (enq_tail item) =
    (m, if r.linked && is_closed m.tail then enqueued false else enq_seq item m.tail)
step r weak m (enq_seq item t) =
    let seq = (m.cells (slot r t)).seq in
    (
      m,
      if t == seq
          then enq_cas item t seq
          else if ltb seq t && r.linked
          then enq_close item
          else enq_tail item,
    )
step r weak m (enq_cas item t seq) =
    if not weak && m.tail == t
    then (record m { tail = add64 t 1 }, enq_val item t seq)
    else (m, enq_tail item)
step r weak m (enq_val item t seq) = (
  record m { cells = update m.cells (slot r t) (record (m.cells (slot r t)) { val = item }) },
  enq_pub item t seq,
)
step r weak m (enq_pub item t seq) = (
  record m {
    cells = update m.cells (slot r t) (record (m.cells (slot r t)) { seq = add64 seq 1 });
  },
  enqueued true,
)
step r weak m (enq_close item) = (close_tail m, enqueued false)
step r weak m deq_head = (m, deq_seq m.head)
step r weak m (deq_seq h) =
    let seq = (m.cells (slot r h)).seq in
    (
      m,
      if seq == add64 h 1
          then deq_cas h
          else if signed_lt seq (add64 h 1)
          then deq_size_tail
          else deq_head,
    )
step r weak m (deq_cas h) =
    if not weak && m.head == h then (record m { head = add64 h 1 }, deq_val h) else (m, deq_head)
step r weak m (deq_val h) = (m, deq_pub h (m.cells (slot r h)).val)
step r weak m (deq_pub h v) = (
  record m {
    cells = update m.cells (slot r h) (record (m.cells (slot r h)) { seq = add64 h r.size });
  },
  dequeued (some v),
)
step r weak m deq_size_tail = (m, deq_size_head (clear_msb 64 m.tail))
step r weak m (deq_size_head t) = (m, if sub64 t m.head == 0 then dequeued none else deq_head)
step r weak m closing = (close_tail m, closed)
step r weak m idle = (m, idle)
step r weak m (enqueued b) = (m, enqueued b)
step r weak m (dequeued v) = (m, dequeued v)
step r weak m closed = (m, closed)

-- `size()` read at one moment.
unfoldable pub size : Shared → ℕ
size m = sub64 (clear_msb 64 m.tail) m.head

-- `open`, which the caller runs with exclusive ownership: the state and `next_` afterwards.
unfoldable pub open_segment : Shared → (next : ℕ) → Shared × ℕ
open_segment m next = if get_msb 64 m.tail == 0 then (m, next) else (record m { tail = m.head }, 0)
