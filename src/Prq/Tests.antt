-- ===== src/Prq/Tests.antt =====
-- `PRQueue` on fixed runs.
use mpmc_queues.Base.{
  ℕ, zero, suc, ◌<◌, ◌≡◌, refl, Bool, true, false, List, [], ◌∷◌, some, none, arith, length,
}
use mpmc_queues.Bit.{get_msb, clear_msb}
use mpmc_queues.CasLoop.{Ring, slot}
use mpmc_queues.CasLoop.Inv.{IsRing}
use mpmc_queues.Prq.{
  Shared, enq_add, deq_add, deq_mark, enqueued, dequeued, undefined, is_closed, is_closed_,
  is_reserved, thread_reserved,
}
use mpmc_queues.Prq.Step.{step, inspect, judge}
use mpmc_queues.Prq.Alone.Defs.{rounds, solo, Holds, IsItem}
use mpmc_queues.Prq.Alone.Enqueue.{prq_enqueue_alone}
use mpmc_queues.Prq.Alone.Dequeue.{prq_dequeue_alone}

abbrev pair : Ring
pair = record { pow2 = false; linked = true; size = 2; mask = 0 }

pair-IsRing : IsRing pair
unfolding slot
pair-IsRing = record { two = omega arith; slot_lem = λ i. refl }

-- The item 8 has ticket 5; the cell of ticket 6 is free.
abbrev half : Shared
half = record {
  head = 5;
  tail = 6;
  cells = λ i. elim i [ zero ↦ record { val = 0; seq = 6 } | suc _ ↦ record { val = 8; seq = 7 } ];
  counter = 1;
}

eight_IsItem : IsItem 8
unfolding is_reserved
eight_IsItem = ((λ e. absurd (omega arith)), refl)

abbrev eight : List ℕ
eight = 8 ∷ []

half-Holds : Holds pair half eight
half-Holds = record {
  count = omega arith;
  fits = omega arith;
  items = (eight_IsItem, refl, tt);
  vacant = λ t a b. let e : t ≡ 6 = omega arith in rw e (refl, omega arith);
}

prq_enqueue_alone_example :
    (length eight < 2
      → let s = solo pair (rounds none 5) (half, none, enq_add 8) in
        (s.2 ≡ enqueued true) × Holds pair s.0 (8 ∷ 8 ∷ []))
    × (length eight ≡ 2
        → ◌≡◌ {A = Bool} true true
        → let s = solo pair (rounds none 4) (half, none, enq_add 8) in
          (s.2 ≡ enqueued false)
          × (is_closed s.0 ≡ true)
          × (s.0.cells ≡ half.cells)
          × (s.0.head ≡ 5))
prq_enqueue_alone_example =
    prq_enqueue_alone pair-IsRing half-Holds (omega arith) 8 eight_IsItem none tt

prq_dequeue_alone_example :
    ((x : ℕ) (q : List ℕ)
      → Holds pair half (x ∷ q)
      → let s = solo pair 5 (half, none, deq_add) in (s.2 ≡ dequeued (some x)) × Holds pair s.0 q)
    × (Holds pair half []
        → let s = solo pair 10 (half, none, deq_add) in
          (s.2 ≡ dequeued none) × Holds pair s.0 [] × (s.0.head ≡ 6))
prq_dequeue_alone_example = prq_dequeue_alone pair half none pair-IsRing (omega arith)

-- A second enqueue, and two dequeues.
abbrev first : Shared
first = (solo pair 7 (half, none, enq_add 10)).0

abbrev second : Shared
second = (solo pair 5 (first, none, deq_add)).0

two_dequeues : (solo pair 5 (second, none, deq_add)).2 ≡ dequeued (some 10)
unfolding solo step slot inspect is_reserved thread_reserved is_closed_ get_msb clear_msb
two_dequeues = refl

-- A dequeue of ticket 7 that finds the item of ticket 5; while it marks the cell unsafe, the item is taken and
-- ticket 7 puts a tag there. It then uses `tailIndex` before it has loaded `tail_`.
abbrev tagged_next : Shared
tagged_next = record { head = 8; tail = 8; cells = λ _. record { val = 3; seq = 9 }; counter = 2 }

unloaded_tail : (solo pair 4 (tagged_next, none, deq_mark 7 0 none 7)).2 ≡ undefined
unfolding solo step slot inspect judge is_reserved clear_msb get_msb
unloaded_tail = refl
