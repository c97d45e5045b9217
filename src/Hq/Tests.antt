-- ===== src/Hq/Tests.antt =====
-- `LinkedHQ` of two cells or three.
use mpmc_queues.Base.{
  ℕ, zero, suc, ◌+◌, ◌≤◌, ◌<◌, ◌≡◌, ◌≢◌, refl, arith, true, false, Option, none, some, List, [],
  ◌∷◌, count, update,
}
use mpmc_queues.Hq.{
  Shared, enqueue, dequeue, call, reserved, construct, init_buffer_slots, step, enq_add, deq_next,
  enqueued, dequeued, add64, empty, seen, help_head, slow_result,
}
use mpmc_queues.Hq.System.{Event, run, invoke, link, next, run_all, begin, took_all}
use mpmc_queues.Faa.Counts.{listing}
use mpmc_queues.Hq.Safety.{hq_conserves}
use mpmc_queues.Hq.Alone.{solo}
use mpmc_queues.Hq.Calls.{hq_alone}
use mpmc_queues.Hq.Lost.{race, drained, accepted_is_lost}

abbrev raw : ℕ → ℕ
raw _ = 77

-- A slow dequeue meets an enqueue that has a ticket and no item yet; a fast one takes the second item.
abbrev mixed : List Event
mixed =
    invoke 0 (enqueue 9)
    ∷ run 0 false
    ∷ invoke 1 dequeue
    ∷ run 1 false
    ∷ run 1 false
    ∷ run 1 false
    ∷ run 1 false
    ∷ run 1 false
    ∷ run 0 false
    ∷ run 1 false
    ∷ run 1 false
    ∷ run 1 true
    ∷ invoke 0 (enqueue 8)
    ∷ run 0 false
    ∷ run 0 false
    ∷ link 5
    ∷ invoke 2 dequeue
    ∷ run 2 false
    ∷ run 2 false
    ∷ run 2 false
    ∷ run 2 false
    ∷ []

mixed_result : (run_all 2 mixed (begin (construct 2 raw))).pc 1 ≡ dequeued (some 9)
unfolding run_all next call reserved step construct init_buffer_slots begin help_head slow_result
mixed_result = refl

hq_conserves_example :
    let s = run_all 2 mixed (begin (construct 2 raw)) in
    ((x : ℕ) → 1 < x → count x s.accepted ≡ count x s.taken + count x (listing s.mem.cells 2))
    × (count 0 s.taken ≡ 0)
    × (count 1 s.taken ≡ 0)
    × ((i : ℕ) (v : Option ℕ)
        → s.pc i ≡ dequeued v
        → took_all 2 mixed (begin (construct 2 raw)) (λ _. none) i ≡ v)
hq_conserves_example = hq_conserves 2 raw mixed (omega arith)

accepted_is_lost_example :
    ((race 3 (drained 0 (λ _. 0) 0) 9).1 ≡ enqueued true)
    × ((race 3 (drained 0 (λ _. 0) 0) 9).2 ≡ dequeued none)
    × ((race 3 (drained 0 (λ _. 0) 0) 9).0.head ≡ 0 + 2)
    × ((race 3 (drained 0 (λ _. 0) 0) 9).0.cells (0 + 1) ≡ 9)
accepted_is_lost_example = accepted_is_lost 3 9 0 (λ _. 0) 0 (omega arith) (omega arith) refl refl

abbrev half : Shared
half = record { tail = 1; head = 0; cells = λ i. elim i [ zero ↦ 9 | suc _ ↦ 0 ]; next = 0 }

hq_alone_example :
    (1 < 2
      → ◌≡◌ {A = ℕ} 0 empty
      → solo 2 2 half (enq_add 5 empty)
        ≡ (record half { tail = 1 + 1; cells = update half.cells 1 5 }, enqueued true))
    × (2 ≤ 1 → solo 1 2 half (enq_add 5 empty) ≡ (record half { tail = add64 1 1 }, enqueued false))
    × (half.next ≡ 0
        → 0 < 2
        → ◌≢◌ {A = ℕ} 1 0
        → 1 < 9
        → solo 7 2 half deq_next
          ≡ (record half { head = 0 + 1; cells = update half.cells 0 seen }, dequeued (some 9)))
    × (half.next ≡ 0 → ◌≡◌ {A = ℕ} 1 0 → solo 5 2 half deq_next ≡ (half, dequeued none))
    × (half.next ≢ 0
        → 0 < 2
        → 1 < 9
        → solo 4 2 half deq_next
          ≡ (record half { head = 0 + 1; cells = update half.cells 0 seen }, dequeued (some 9)))
    × (half.next ≢ 0
        → 2 ≤ 0
        → solo 2 2 half deq_next ≡ (record half { head = add64 0 1 }, dequeued none))
hq_alone_example = hq_alone 2 half 5 (omega arith) (omega arith)
