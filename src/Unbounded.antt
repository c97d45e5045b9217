-- ===== src/Unbounded.antt =====
-- include/linked/UnboundedProxy.hpp: a list of segments behind `head_` and `tail_`, one shared access
-- of one thread at a time; a call of a segment is one access. Addresses are numbers, the null pointer
-- is 0. Hazard pointers and the operation counters are not in the state.
pub mod Segment
pub mod Spec
pub mod Contents
pub mod System
pub mod Inv
pub mod Changes
pub mod Links
pub mod Steps
pub mod Accesses
pub mod Refine
pub mod Safety
pub mod TwoCells
mod Tests
use mpmc_queues.Base.{
  ℕ, zero, suc, ◌+◌, Bool, true, false, not, Option, none, some, ◌==◌, if◌then◌else◌, update,
}
use mpmc_queues.Unbounded.Segment.{SegmentOps}

-- The proxy and the heap: `used` is the last address given out. A segment that is not linked yet is
-- a thread's own and gets its address when it is linked.
pub record Shared (S : Type 0) : Type 0 where
  pub head : ℕ
  pub tail : ℕ
  pub used : ℕ
  pub segs : ℕ → S
  pub next : ℕ → ℕ

-- Where a thread stands; the last two are the returns of `enqueue` and `dequeue`.
pub data Pc : Type 0 where
  idle : Pc
  enq_start : (item : ℕ) → Pc
  enq_check : (item tail : ℕ) → Pc
  enq_next : (item tail : ℕ) → Pc
  enq_help : (item tail next : ℕ) → Pc
  enq_put : (item tail : ℕ) → Pc
  enq_link : (item tail : ℕ) → Pc
  enq_swing : (tail new : ℕ) → Pc
  deq_start : Pc
  deq_check : (head : ℕ) → Pc
  deq_take : (head : ℕ) → Pc
  deq_next : (head : ℕ) → Pc
  deq_prepare : (head next : ℕ) → Pc
  deq_again : (head next : ℕ) → Pc
  deq_swing : (head next : ℕ) → Pc
  enqueued : Pc
  dequeued : Option ℕ → Pc

pub data Call : Type 0 where
  enqueue : ℕ → Call
  dequeue : Call

unfoldable pub call : Call → Pc
call (enqueue item) = enq_start item
call dequeue = deq_start

module _ {S : Type 0} (seg : SegmentOps S) where
  open seg use {fresh, put, get, prepare}

  -- The constructor: one segment, at address 1.
  unfoldable pub construct : Shared S
  construct = record { head = 1; tail = 1; used = 1; segs = λ _. fresh; next = λ _. 0 }

  unfoldable pub step : Shared S → Pc → Shared S × Pc
  step m (enq_start item) = (m, enq_check item m.tail)
  step m (enq_check item t) = (m, if t == m.tail then enq_next item t else enq_check item m.tail)
  step m (enq_next item t) =
      (m, if m.next t == 0 then enq_put item t else enq_help item t (m.next t))
  step m (enq_help item t n) =
      if m.tail == t then (record m { tail = n }, enq_check item n) else (m, enq_check item m.tail)
  step m (enq_put item t) =
      let (s, ok) = put false item (m.segs t) in
      (record m { segs = update m.segs t s }, if ok then enqueued else enq_link item t)
  step m (enq_link item t) =
      let (s, _) = put false item fresh in
      let new = m.used + 1 in
      if m.next t == 0
      then (
        record m { used = new; segs = update m.segs new s; next = update m.next t new },
        enq_swing t new,
      )
      else (m, enq_check item (m.next t))
  step m (enq_swing t new) = (if m.tail == t then record m { tail = new } else m, enqueued)
  step m deq_start = (m, deq_check m.head)
  step m (deq_check h) = (m, if h == m.head then deq_take h else deq_check m.head)
  step m (deq_take h) =
      let (s, got) = get (m.segs h) in
      (
        record m { segs = update m.segs h s },
        elim got [ none ↦ deq_next h | some x ↦ dequeued (some x) ],
      )
  step m (deq_next h) = (m, if m.next h == 0 then dequeued none else deq_prepare h (m.next h))
  step m (deq_prepare h n) =
      (record m { segs = update m.segs h (prepare (m.segs h)) }, deq_again h n)
  step m (deq_again h n) =
      let (s, got) = get (m.segs h) in
      (
        record m { segs = update m.segs h s },
        elim got [ none ↦ deq_swing h n | some x ↦ dequeued (some x) ],
      )
  step m (deq_swing h n) =
      if m.head == h then (record m { head = n }, deq_check n) else (m, deq_check m.head)
  step m idle = (m, idle)
  step m enqueued = (m, enqueued)
  step m (dequeued v) = (m, dequeued v)
