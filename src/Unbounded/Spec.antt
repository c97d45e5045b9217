-- ===== src/Unbounded/Spec.antt =====
-- What an unbounded queue promises: a list of items, oldest first, that each call changes at one
-- moment; a `dequeue` that returns false has seen the queue empty during the call.
use mpmc_queues.Base.{ℕ, zero, suc, ◌+◌, ◌-◌, Bool, none, some, List, [], ◌∷◌, ◌++◌, if◌then◌else◌}
use mpmc_queues.Unbounded.{
  Pc, idle, enq_start, enq_check, enq_next, enq_help, enq_put, enq_link, enq_swing, deq_start,
  deq_check, deq_take, deq_next, deq_prepare, deq_again, deq_swing, enqueued, dequeued, Shared,
}
use mpmc_queues.Unbounded.Segment.{SegmentOps}

pub data Status : Type 0 where
  ready : Status
  putting : ℕ → Status
  put_done : Status
  taking : Status
  saw_empty : Status
  took : ℕ → Status
  missed : Status

pub data Move : List ℕ → Status → List ℕ → Status → Type 0 where
  stay : (q : List ℕ) (s : Status) → Move q s q s
  put_one : (q : List ℕ) (x : ℕ) → Move q (putting x) (q ++ (x ∷ [])) put_done
  take_one : (q : List ℕ) (x : ℕ) → Move (x ∷ q) taking q (took x)
  see_empty : Move [] taking [] saw_empty
  forget : (q : List ℕ) → Move q saw_empty q taking
  miss : (q : List ℕ) → Move q saw_empty q missed

-- `saw` says whether the thread's last look found the queue empty.
abbrev pub status : (saw : Bool) → Pc → Status
status saw idle = ready
status saw (enq_start x) = putting x
status saw (enq_check x t) = putting x
status saw (enq_next x t) = putting x
status saw (enq_help x t n) = putting x
status saw (enq_put x t) = putting x
status saw (enq_link x t) = putting x
status saw (enq_swing t n) = put_done
status saw deq_start = taking
status saw (deq_check h) = taking
status saw (deq_take h) = taking
status saw (deq_next h) = if saw then saw_empty else taking
status saw (deq_prepare h n) = taking
status saw (deq_again h n) = taking
status saw (deq_swing h n) = taking
status saw enqueued = put_done
status saw (dequeued (some x)) = took x
status saw (dequeued none) = missed

module _ {S : Type 0} (seg : SegmentOps S) where
  open seg use {items}

  -- The items of `n` segments from address `h` on.
  abbrev pub gather : (ℕ → S) → (h n : ℕ) → List ℕ
  gather segs h zero = []
  gather segs h (suc n) = items (segs h) ++ gather segs (h + 1) n

  abbrev pub contents : Shared S → List ℕ
  contents m = gather m.segs m.head (m.used + 1 - m.head)
