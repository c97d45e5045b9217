-- ===== src/Bounded/Chunk.antt =====
-- include/linked/BoundedChunkProxy.hpp: the list of segments with two counters of segments, one shared
-- access of one thread at a time; a call of a segment is one access. Thread `i` holds ticket `i`.
-- Hazard pointers are not in the state, so that `protect` is its last load.
pub mod Refine
use mpmc_queues.Base.{
  ℕ, zero, suc, ◌+◌, ◌-◌, ◌*◌, ◌/◌, ◌%◌, ◌^◌, Bool, true, false, ◌&&◌, not, Option, none, some, ltb,
  ◌==◌, if◌then◌else◌, update,
}
use mpmc_queues.Unbounded as Unbounded
use mpmc_queues.Unbounded.{Call, enqueue, dequeue}
use mpmc_queues.Unbounded.Segment.{SegmentOps}

pub record Config : Type 0 where
  pub info_required : Bool
  pub chunk_factor : ℕ
  pub max_threads : ℕ

-- `op_counter` and `last_seen` are the metadata of the threads; an `int64_t` is its word.
pub record Shared (S : Type 0) : Type 0 where
  pub list : Unbounded.Shared S
  pub tail_idx : ℕ
  pub head_idx : ℕ
  pub op_counter : ℕ → ℕ
  pub last_seen : ℕ → ℕ

abbrev pub add64 : ℕ → ℕ → ℕ
add64 a b = (a + b) % 2 ^ 64

abbrev pub sub64 : ℕ → ℕ → ℕ
sub64 a b = (a + 2 ^ 64 - b) % 2 ^ 64

-- Where a thread stands. `enq_seen` is the load of `tail_idx_` by `safeEnqueue_`, `room_tail` and
-- `room_head` are the loads of `capacity_respected_`.
pub data Pc : Type 0 where
  idle : Pc
  enq_protect : (item : ℕ) → Pc
  enq_next : (item t : ℕ) → Pc
  enq_help : (item t n : ℕ) → Pc
  enq_seen : (item t : ℕ) → Pc
  enq_put : (item t actual : ℕ) → Pc
  room_tail : (item t : ℕ) → Pc
  room_head : (item t tail_idx : ℕ) → Pc
  enq_link : (item t : ℕ) → Pc
  enq_count : (t new : ℕ) → Pc
  enq_swing : (t new : ℕ) → Pc
  enq_record : Pc
  deq_start : Pc
  deq_check : (h : ℕ) → Pc
  deq_take : (h : ℕ) → Pc
  deq_next : (h : ℕ) → Pc
  deq_prepare : (h n : ℕ) → Pc
  deq_again : (h n : ℕ) → Pc
  deq_swing : (h n : ℕ) → Pc
  deq_count : (n : ℕ) → Pc
  deq_record : (item : ℕ) → Pc
  enqueued : Bool → Pc
  dequeued : Option ℕ → Pc

unfoldable pub call : Call → Pc
call (enqueue item) = enq_protect item
call dequeue = deq_start

-- The bound that `capacity_respected_` tests, on the two counters as loaded.
unfoldable pub capacity_respected : Config → (tail head : ℕ) → Bool
capacity_respected c tail head = ltb (add64 (sub64 tail head) 1) c.chunk_factor

module _ {S : Type 0} (seg : SegmentOps S) (c : Config) where
  open seg use {fresh, put, get, prepare}

  -- The constructor; `none` is a failed assertion.
  unfoldable pub construct : (cap : ℕ) → Option (Shared S)
  construct cap =
      if not (cap == 0) && cap % c.chunk_factor == 0 && ltb 0 (cap / c.chunk_factor)
      then some (record {
        list = Unbounded.construct seg;
        tail_idx = 1;
        head_idx = 1;
        op_counter = λ _. 0;
        last_seen = λ _. 0;
      })
      else none

  -- One shared access of thread `i`.
  unfoldable pub step : (i : ℕ) → Shared S → Pc → Shared S × Pc
  step i m (enq_protect item) = (m, enq_next item m.list.tail)
  step i m (enq_next item t) = (
    m,
    if m.list.next t == 0
        then if c.info_required then enq_seen item t else enq_put item t 0
        else enq_help item t (m.list.next t),
  )
  step i m (enq_help item t n) = (
    if m.list.tail == t then record m { list = record m.list { tail = n } } else m,
    enq_protect item,
  )
  step i m (enq_seen item t) = (m, enq_put item t m.tail_idx)
  step i m (enq_put item t actual) =
      let (s, ok) = put (c.info_required && actual == m.last_seen i) item (m.list.segs t) in
      (
        record m {
          list = record m.list { segs = update m.list.segs t s };
          last_seen =
              if c.info_required
              then update m.last_seen i (if ok then 0 else actual)
              else m.last_seen;
        },
        if ok then enq_record else room_tail item t,
      )
  step i m (room_tail item t) = (m, room_head item t m.tail_idx)
  step i m (room_head item t tail_idx) =
      (m, if capacity_respected c tail_idx m.head_idx then enq_link item t else enqueued false)
  step i m (enq_link item t) =
      let (s, _) = put false item fresh in
      let new = m.list.used + 1 in
      if m.list.next t == 0
      then (
        record m {
          list = record m.list {
            used = new;
            segs = update m.list.segs new s;
            next = update m.list.next t new;
          };
        },
        enq_count t new,
      )
      else (m, enq_protect item)
  step i m (enq_count t new) = (record m { tail_idx = add64 m.tail_idx 1 }, enq_swing t new)
  step i m (enq_swing t new) =
      (if m.list.tail == t then record m { list = record m.list { tail = new } } else m, enq_record)
  step i m enq_record =
      (record m { op_counter = update m.op_counter i (add64 (m.op_counter i) 1) }, enqueued true)
  step i m deq_start = (m, deq_check m.list.head)
  step i m (deq_check h) = (m, if h == m.list.head then deq_take h else deq_check m.list.head)
  step i m (deq_take h) =
      let (s, got) = get (m.list.segs h) in
      (
        record m { list = record m.list { segs = update m.list.segs h s } },
        elim got [ none ↦ deq_next h | some x ↦ deq_record x ],
      )
  step i m (deq_next h) =
      (m, if m.list.next h == 0 then dequeued none else deq_prepare h (m.list.next h))
  step i m (deq_prepare h n) = (
    record m { list = record m.list { segs = update m.list.segs h (prepare (m.list.segs h)) } },
    deq_again h n,
  )
  step i m (deq_again h n) =
      let (s, got) = get (m.list.segs h) in
      (
        record m { list = record m.list { segs = update m.list.segs h s } },
        elim got [ none ↦ deq_swing h n | some x ↦ deq_record x ],
      )
  step i m (deq_swing h n) =
      if m.list.head == h
      then (record m { list = record m.list { head = n } }, deq_count n)
      else (m, deq_check m.list.head)
  step i m (deq_count n) = (record m { head_idx = add64 m.head_idx 1 }, deq_check n)
  step i m (deq_record x) = (
    record m { op_counter = update m.op_counter i (sub64 (m.op_counter i) 1) },
    dequeued (some x),
  )
  step i m idle = (m, idle)
  step i m (enqueued b) = (m, enqueued b)
  step i m (dequeued v) = (m, dequeued v)

-- The loop of `size` over the metadata, with the threads left.
unfoldable pub total : (left i : ℕ) → (ℕ → ℕ) → ℕ → ℕ
total zero i counters sum = sum
total (suc n) i counters sum = total n (i + 1) counters (add64 sum (counters i))

-- `size`; `none` is the failed assertion that the sum is not negative.
unfoldable pub size : {S : Type 0} → Config → Shared S → Option ℕ
size c m =
    let sum = total c.max_threads 0 m.op_counter 0 in if ltb sum (2 ^ 63) then some sum else none
