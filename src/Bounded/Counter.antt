-- ===== src/Bounded/Counter.antt =====
-- include/linked/BoundedCounterProxy.hpp: the list of segments with two counters, one shared access of
-- one thread at a time; a call of a segment is one access. Thread `i` holds ticket `i`. Hazard
-- pointers are not in the state, so that `protect` is its last load.
pub mod Refine
pub mod Spurious
use mpmc_queues.Base.{
  ℕ, zero, suc, ◌+◌, ◌-◌, ◌*◌, ◌/◌, ◌%◌, ◌^◌, Bool, true, false, ◌&&◌, Option, none, some, ltb,
  ◌==◌, if◌then◌else◌, update,
}
use mpmc_queues.Unbounded as Unbounded
use mpmc_queues.Unbounded.{Call, enqueue, dequeue}
use mpmc_queues.Unbounded.Segment.{SegmentOps}

pub record Config : Type 0 where
  pub info_required : Bool
  pub full_capacity : ℕ
  pub chunk_factor : ℕ

-- `last_seen` is the metadata of the threads.
pub record Shared (S : Type 0) : Type 0 where
  pub list : Unbounded.Shared S
  pub pushed : ℕ
  pub popped : ℕ
  pub last_seen : ℕ → ℕ

abbrev pub add64 : ℕ → ℕ → ℕ
add64 a b = (a + b) % 2 ^ 64

abbrev pub sub64 : ℕ → ℕ → ℕ
sub64 a b = (a + 2 ^ 64 - b) % 2 ^ 64

-- Where a thread stands. `room_pushed` and `room_popped` are the two loads of `capacity_respected_`;
-- `again` says that the enqueue on the segment has failed.
pub data Pc : Type 0 where
  idle : Pc
  enq_protect : (item : ℕ) → Pc
  enq_next : (item t : ℕ) → Pc
  enq_help : (item t n : ℕ) → Pc
  room_pushed : (again : Bool) (item t : ℕ) → Pc
  room_popped : (again : Bool) (item t pushed : ℕ) → Pc
  enq_put : (item t : ℕ) → Pc
  enq_link : (item t : ℕ) → Pc
  enq_swing : (t new : ℕ) → Pc
  enq_record : Pc
  deq_start : Pc
  deq_check : (h : ℕ) → Pc
  deq_take : (h : ℕ) → Pc
  deq_next : (h : ℕ) → Pc
  deq_prepare : (h n : ℕ) → Pc
  deq_again : (h n : ℕ) → Pc
  deq_swing : (h n : ℕ) → Pc
  deq_record : (item : ℕ) → Pc
  enqueued : Bool → Pc
  dequeued : Option ℕ → Pc

unfoldable pub call : Call → Pc
call (enqueue item) = enq_protect item
call dequeue = deq_start

-- The bound that `capacity_respected_` tests, on the two counters as loaded.
unfoldable pub capacity_respected : Config → (pushed popped : ℕ) → Bool
capacity_respected c pushed popped = ltb (sub64 pushed popped) c.full_capacity

module _ {S : Type 0} (seg : SegmentOps S) (c : Config) where
  open seg use {fresh, put, get, prepare}

  -- The constructor; `none` is a failed assertion.
  unfoldable pub construct : Option (Shared S)
  construct =
      if c.full_capacity == 0
      then none
      else if c.full_capacity % c.chunk_factor == 0
      then some
          (record { list = Unbounded.construct seg; pushed = 0; popped = 0; last_seen = λ _. 0 })
      else none

  -- One shared access of thread `i`.
  unfoldable pub step : (i : ℕ) → Shared S → Pc → Shared S × Pc
  step i m (enq_protect item) = (m, enq_next item m.list.tail)
  step i m (enq_next item t) =
      (m, if m.list.next t == 0 then room_pushed false item t else enq_help item t (m.list.next t))
  step i m (enq_help item t n) = (
    if m.list.tail == t then record m { list = record m.list { tail = n } } else m,
    enq_protect item,
  )
  step i m (room_pushed again item t) = (m, room_popped again item t m.pushed)
  step i m (room_popped again item t pushed) = (
    m,
    if capacity_respected c pushed m.popped
        then if again then enq_link item t else enq_put item t
        else enqueued false,
  )
  step i m (enq_put item t) =
      let (s, ok) = put (c.info_required && t == m.last_seen i) item (m.list.segs t) in
      (
        record m {
          list = record m.list { segs = update m.list.segs t s };
          last_seen =
              if c.info_required then update m.last_seen i (if ok then 0 else t) else m.last_seen;
        },
        if ok then enq_record else room_pushed true item t,
      )
  step i m (enq_link item t) =
      let (s, _) = put false item fresh in
      let new = m.list.used + 1 in
      if m.list.next t == 0
      then (
        record m {
          list = record m.list {
            used = new;
            segs = update m.list.segs new s;
            next = update m.list.next t new;
          };
        },
        enq_swing t new,
      )
      else (m, enq_protect item)
  step i m (enq_swing t new) =
      (if m.list.tail == t then record m { list = record m.list { tail = new } } else m, enq_record)
  step i m enq_record = (record m { pushed = add64 m.pushed 1 }, enqueued true)
  step i m deq_start = (m, deq_check m.list.head)
  step i m (deq_check h) = (m, if h == m.list.head then deq_take h else deq_check m.list.head)
  step i m (deq_take h) =
      let (s, got) = get (m.list.segs h) in
      (
        record m { list = record m.list { segs = update m.list.segs h s } },
        elim got [ none ↦ deq_next h | some x ↦ deq_record x ],
      )
  step i m (deq_next h) =
      (m, if m.list.next h == 0 then dequeued none else deq_prepare h (m.list.next h))
  step i m (deq_prepare h n) = (
    record m { list = record m.list { segs = update m.list.segs h (prepare (m.list.segs h)) } },
    deq_again h n,
  )
  step i m (deq_again h n) =
      let (s, got) = get (m.list.segs h) in
      (
        record m { list = record m.list { segs = update m.list.segs h s } },
        elim got [ none ↦ deq_swing h n | some x ↦ deq_record x ],
      )
  step i m (deq_swing h n) =
      if m.list.head == h
      then (record m { list = record m.list { head = n } }, deq_check n)
      else (m, deq_check m.list.head)
  step i m (deq_record x) = (record m { popped = add64 m.popped 1 }, dequeued (some x))
  step i m idle = (m, idle)
  step i m (enqueued b) = (m, enqueued b)
  step i m (dequeued v) = (m, dequeued v)

-- `size` of the proxy, with the loads in the order of the code; nothing runs between them here.
unfoldable pub size : {S : Type 0} → Shared S → ℕ
size m = sub64 m.pushed m.popped

-- `seg_capacity_ * ChunkFactor`.
unfoldable pub capacity : Config → ℕ
capacity c = c.full_capacity / c.chunk_factor * c.chunk_factor
