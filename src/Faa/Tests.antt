-- ===== src/Faa/Tests.antt =====
-- `LinkedFAAArray` of one cell or two.
use mpmc_queues.Base.{
  ℕ, zero, suc, ◌+◌, ◌≤◌, ◌<◌, ◌≡◌, ◌≢◌, refl, arith, true, false, some, List, [], ◌∷◌, count,
  update, ◌==◌, ne→==,
}
use mpmc_queues.Faa.{
  Shared, enqueue, dequeue, call, reserved, construct, init_buffer_slots, step, enq_add, deq_add,
  enqueued, dequeued, add64, open_segment, empty, seen,
}
use mpmc_queues.Faa.System.{Event, run, invoke, next, run_all, begin}
use mpmc_queues.Faa.Counts.{listing}
use mpmc_queues.Faa.Inv.{HasTicket}
use mpmc_queues.Faa.Safety.{items_conserved, drained_is_empty}
use mpmc_queues.Faa.Alone.{solo, array_alone, reopened_refuses}

abbrev raw : ℕ → ℕ
raw _ = 77

-- A dequeue comes too early and waits for the enqueue of its cell.
abbrev early : List Event
early =
    invoke 0 dequeue
    ∷ run 0
    ∷ run 0
    ∷ run 0
    ∷ run 0
    ∷ invoke 1 (enqueue 9)
    ∷ run 1
    ∷ run 1
    ∷ run 0
    ∷ run 0
    ∷ []

early_result : (run_all 1 early (begin (construct 1 raw))).pc 0 ≡ dequeued (some 9)
unfolding run_all next call reserved step construct init_buffer_slots begin
early_result = refl

items_conserved_example :
    let s = run_all 1 early (begin (construct 1 raw)) in
    ((x : ℕ) → 1 < x → count x s.accepted ≡ count x s.returned + count x (listing s.mem.cells 1))
    × (count 0 s.returned ≡ 0)
    × (count 1 s.returned ≡ 0)
items_conserved_example = items_conserved 1 raw early (omega arith)

over : 1 ≤ (run_all 1 early (begin (construct 1 raw))).mem.head
unfolding run_all next call reserved step construct init_buffer_slots begin
over = omega arith

nobody : (i t : ℕ) → HasTicket ((run_all 1 early (begin (construct 1 raw))).pc i) t → ⊥
unfolding run_all next call reserved step construct init_buffer_slots begin
nobody zero t h = h
nobody (suc zero) t h = h
nobody (suc (suc i)) t h =
    let a : (0 == suc (suc i)) ≡ false = ne→== 0 (suc (suc i)) (omega arith) in
    let b : (1 == suc (suc i)) ≡ false = ne→== 1 (suc (suc i)) (omega arith) in rw (a, b) at h

drained_is_empty_example :
    let s = run_all 1 early (begin (construct 1 raw)) in count 9 s.accepted ≡ count 9 s.returned
drained_is_empty_example = drained_is_empty 1 raw early (omega arith) over nobody 9 (omega arith)

abbrev half : Shared
half = record { tail = 1; head = 0; cells = λ i. elim i [ zero ↦ 9 | suc _ ↦ 0 ]; next = 0 }

array_alone_example :
    (1 < 2
      → ◌≡◌ {A = ℕ} 0 empty
      → solo 2 2 half (enq_add 5)
        ≡ (record half { tail = 1 + 1; cells = update half.cells 1 5 }, enqueued true))
    × (2 ≤ 1 → solo 1 2 half (enq_add 5) ≡ (record half { tail = add64 1 1 }, enqueued false))
    × (0 < 2
        → ◌≢◌ {A = ℕ} 9 empty
        → solo 3 2 half deq_add
          ≡ (record half { head = 0 + 1; cells = update half.cells 0 seen }, dequeued (some 9)))
array_alone_example = array_alone 2 half 5 (omega arith)

abbrev used : Shared
used = record { tail = 2; head = 2; cells = λ _. 1; next = 0 }

reopened_refuses_example : (solo 5 2 (open_segment used) (enq_add 5)).1 ≡ enqueued false
reopened_refuses_example = reopened_refuses 2 5 used (omega arith) (λ t lt. omega arith)
