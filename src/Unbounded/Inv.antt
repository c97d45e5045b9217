-- ===== src/Unbounded/Inv.antt =====
-- What every schedule of `UnboundedProxy` keeps.
use mpmc_queues.Base.{ℕ, ◌+◌, ◌≤◌, ◌<◌, ◌≡◌, arith, Bool, true, []}
use mpmc_queues.Unbounded.{
  Pc, idle, enq_start, enq_check, enq_next, enq_help, enq_put, enq_link, enq_swing, deq_start,
  deq_check, deq_take, deq_next, deq_prepare, deq_again, deq_swing, enqueued, dequeued, Shared,
}
use mpmc_queues.Unbounded.Segment.{SegmentOps}

module _ {S : Type 0} (seg : SegmentOps S) where
  open seg use {items, IsClosed}

  -- The shared part: the segments form a chain, all but the last are closed, and those before the
  -- head are empty.
  pub record Chain (m : Shared S) : Type 0 where
    pub head_pos : 1 ≤ m.head
    pub head_in : m.head ≤ m.used
    pub tail_pos : 1 ≤ m.tail
    pub tail_in : m.tail ≤ m.used
    pub links : (t : ℕ) → 1 ≤ t → t < m.used → m.next t ≡ t + 1
    pub last : (t : ℕ) → m.used ≤ t → m.next t ≡ 0
    pub shut : (t : ℕ) → 1 ≤ t → t < m.used → IsClosed (m.segs t)
    pub gone : (t : ℕ) → 1 ≤ t → t < m.head → items (m.segs t) ≡ []

  -- What a thread knows at each place.
  abbrev pub IsGood : Shared S → (saw : Bool) → Pc → Type 0
  IsGood m saw (enq_check x t) = (1 ≤ t) × (t ≤ m.used)
  IsGood m saw (enq_next x t) = (1 ≤ t) × (t ≤ m.used)
  IsGood m saw (enq_put x t) = (1 ≤ t) × (t ≤ m.used)
  IsGood m saw (enq_help x t n) = (1 ≤ t) × (n ≡ t + 1) × (n ≤ m.used)
  IsGood m saw (enq_link x t) = (1 ≤ t) × (t ≤ m.used) × IsClosed (m.segs t)
  IsGood m saw (enq_swing t n) = (1 ≤ n) × (n ≤ m.used)
  IsGood m saw (deq_check h) = (1 ≤ h) × (h ≤ m.head)
  IsGood m saw (deq_take h) = (1 ≤ h) × (h ≤ m.head)
  IsGood m saw (deq_next h) = (1 ≤ h) × (h ≤ m.head) × (m.next h ≡ 0 → saw ≡ true)
  IsGood m saw (deq_prepare h n) = (1 ≤ h) × (h ≤ m.head) × (n ≡ h + 1) × (n ≤ m.used)
  IsGood m saw (deq_again h n) = (1 ≤ h) × (h ≤ m.head) × (n ≡ h + 1) × (n ≤ m.used)
  IsGood m saw (deq_swing h n) =
      (1 ≤ h) × (h ≤ m.head) × (n ≡ h + 1) × (n ≤ m.used) × (items (m.segs h) ≡ [])
  IsGood m saw _ = Unit {0}

  -- Nothing that a thread knows is undone by a later state.
  pub record Later (m m' : Shared S) : Type 0 where
    pub head_up : m.head ≤ m'.head
    pub used_up : m.used ≤ m'.used
    pub stays_null : (t : ℕ) → m'.next t ≡ 0 → m.next t ≡ 0
    pub stays_shut : (t : ℕ) → 1 ≤ t → t ≤ m.used → IsClosed (m.segs t) → IsClosed (m'.segs t)
    pub stays_empty : (t : ℕ) → 1 ≤ t → t < m.used → items (m.segs t) ≡ [] → items (m'.segs t) ≡ []

  pub IsGood-Later :
      (m m' : Shared S) (saw : Bool) → Later m m' → (p : Pc) → IsGood m saw p → IsGood m' saw p
  IsGood-Later m m' saw l p g = at p g
    where
      up : m.head ≤ m'.head
      up = l.head_up

      more : m.used ≤ m'.used
      more = l.used_up

      at : (p : Pc) → IsGood m saw p → IsGood m' saw p
      at idle g = tt
      at (enq_start x) g = tt
      at (enq_check x t) (a, b) = (a, omega (arith, more))
      at (enq_next x t) (a, b) = (a, omega (arith, more))
      at (enq_put x t) (a, b) = (a, omega (arith, more))
      at (enq_help x t n) (a, b, c) = (a, b, omega (arith, more))
      at (enq_link x t) (a, b, c) = (a, omega (arith, more), l.stays_shut t a b c)
      at (enq_swing t n) (a, b) = (a, omega (arith, more))
      at deq_start g = tt
      at (deq_check h) (a, b) = (a, omega (arith, up))
      at (deq_take h) (a, b) = (a, omega (arith, up))
      at (deq_next h) (a, b, c) = (a, omega (arith, up), λ z. c (l.stays_null h z))
      at (deq_prepare h n) (a, b, c, d) = (a, omega (arith, up), c, omega (arith, more))
      at (deq_again h n) (a, b, c, d) = (a, omega (arith, up), c, omega (arith, more))
      at (deq_swing h n) (a, b, c, d, e) =
          (a, omega (arith, up), c, omega (arith, more), l.stays_empty h a (omega arith) e)
      at enqueued g = tt
      at (dequeued v) g = tt
