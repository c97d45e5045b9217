-- ===== src/CasLoop/Tests.antt =====
-- `CASLoopQueue` at concrete sizes and schedules.
use mpmc_queues.Base.{
  if◌then◌else◌, ℕ, zero, suc, ◌+◌, ◌^◌, ◌≤◌, ◌<◌, ◌≡◌, ◌≢◌, ◌⊎◌, refl, Bool, true, false, Option,
  some, none, List, [], ◌∷◌, ◌++◌, arith, length, update,
}
use mpmc_queues.Bit.{get_msb}
use mpmc_queues.CasLoop.{
  Ring, Shared, slot, real_size, make_ring, init_cells, init_slots, construct, construct_with,
  is_closed, step, size, enq_tail, enq_seq, enqueued, deq_head, dequeued, enqueue, dequeue, call,
}
use mpmc_queues.CasLoop.Segment as S
use mpmc_queues.CasLoop.Segment.{Segment, memory, listed, segment_runs}
use mpmc_queues.CasLoop.Linked.{pair_ring, pair_ring-IsRing, pair_segment}
use mpmc_queues.CasLoop.System.{System, Event, run, invoke, next, run_all, begin}
use mpmc_queues.CasLoop.Spec.{Move, contents}
use mpmc_queues.CasLoop.Inv.{IsRing, Inv, construct-Inv, run_all-Inv}
use mpmc_queues.CasLoop.Refine.{next_refines, statuses}
use mpmc_queues.CasLoop.Safety.{AllMoves, went_in, went_out, run_refines, size-contents}
use mpmc_queues.CasLoop.Alone.Defs.{solo, Holds}
use mpmc_queues.CasLoop.Alone.Enqueue.{enqueue_alone, enqueue_spins_when_full}
use mpmc_queues.CasLoop.Alone.Dequeue.{dequeue_alone}
use mpmc_queues.CasLoop.Alone.Faults.{OneCell, one_cell_loses, construct_with_loses}

abbrev small_ring : Ring
small_ring = record { pow2 = false; linked = true; size = 2; mask = 0 }

abbrev plain_ring : Ring
plain_ring = record { pow2 = false; linked = false; size = 2; mask = 0 }

abbrev fresh : Shared
fresh = record {
  head = 0;
  tail = 0;
  cells = init_cells small_ring 2 0 (λ _. record { val = 0; seq = 0 });
}

-- Two enqueues and a dequeue overlap.
abbrev overlap : List Event
overlap =
    invoke 0 (enqueue 7)
    ∷ invoke 1 (enqueue 8)
    ∷ run 0 false
    ∷ run 1 false
    ∷ run 0 false
    ∷ run 1 false
    ∷ run 1 false
    ∷ run 0 false
    ∷ invoke 2 dequeue
    ∷ run 2 false
    ∷ run 1 false
    ∷ run 1 false
    ∷ run 2 false
    ∷ run 2 false
    ∷ run 2 false
    ∷ run 2 false
    ∷ []

-- Thread 1 wins the first ticket, and the dequeue returns its item.
overlap_result : (run_all small_ring overlap (begin fresh)).pc 2 ≡ dequeued (some 8)
unfolding run_all next call step slot is_closed get_msb init_cells begin
overlap_result = refl

made : construct false true 2 0 ≡ some (small_ring, fresh)
unfolding construct make_ring real_size init_slots init_cells
made = refl

run_refines_example :
    (contents (begin fresh) ≡ [])
    × AllMoves small_ring overlap (begin fresh)
    × (went_in small_ring overlap (begin fresh)
        ≡ went_out small_ring overlap (begin fresh)
          ++ contents (run_all small_ring overlap (begin fresh)))
run_refines_example =
    run_refines false true 2 0 overlap (omega arith) (omega arith) made (omega arith) (omega arith)

size-contents_example :
    (length (contents (run_all small_ring overlap (begin fresh))) ≤ 2)
    × (size (run_all small_ring overlap (begin fresh)).mem
        ≡ length (contents (run_all small_ring overlap (begin fresh))))
size-contents_example =
    size-contents false true 2 0 overlap (omega arith) (omega arith) made (omega arith)
      (omega arith)

begun : IsRing small_ring × Inv small_ring 0 (begin fresh)
begun = construct-Inv false true 2 0 (omega arith) (omega arith) (omega arith) made (omega arith)

-- Thread 0 is about to exchange the tail.
abbrev midway : System
midway =
    run_all small_ring
      (invoke 0 (enqueue 7) ∷ invoke 1 (enqueue 8) ∷ run 0 false ∷ run 0 false ∷ []) (begin fresh)

midway-Inv : Inv small_ring 4 midway
midway-Inv = run_all-Inv begun.0 0 _ (omega arith) begun.1

next_refines_example :
    Move 2
      (contents midway)
      (statuses midway 0)
      (contents (next small_ring (run 0 false) midway))
      (statuses (next small_ring (run 0 false) midway) 0)
    × ((j : ℕ) → 0 ≢ j → statuses (next small_ring (run 0 false) midway) j ≡ statuses midway j)
next_refines_example = next_refines 0 false begun.0 (omega arith) midway-Inv

-- One item, and one free cell.
abbrev half : Shared
half = record {
  head = 4;
  tail = 5;
  cells = λ i. elim i [ zero ↦ record { val = 9; seq = 5 } | suc _ ↦ record { val = 0; seq = 5 } ];
}

abbrev full : Shared
full = record {
  head = 4;
  tail = 6;
  cells = λ i. elim i [ zero ↦ record { val = 9; seq = 5 } | suc _ ↦ record { val = 3; seq = 6 } ];
}

abbrev nine : List ℕ
nine = 9 ∷ []

half-Holds : Holds small_ring half nine
half-Holds = record {
  count = omega arith;
  fits = omega arith;
  items = (refl, tt);
  vacant = λ t a b. let e : t ≡ 5 = omega arith in rw e refl;
}

full-Holds : Holds plain_ring full (9 ∷ 3 ∷ [])
full-Holds = record {
  count = omega arith;
  fits = omega arith;
  items = (refl, (refl, tt));
  vacant = λ t a b. absurd (omega arith);
}

plain-IsRing : IsRing plain_ring
unfolding slot
plain-IsRing = record { two = omega arith; slot_lem = λ i. refl }

enqueue_alone_example :
    (length nine < 2
      → (solo small_ring 5 half (enq_tail 6)).1 ≡ enqueued true
        × Holds small_ring (solo small_ring 5 half (enq_tail 6)).0 (nine ++ (6 ∷ [])))
    × (length nine ≡ 2
        → ◌≡◌ {A = Bool} true true
        → solo small_ring 3 half (enq_tail 6) ≡ (record half { tail = 5 + 2 ^ 63 }, enqueued false))
enqueue_alone_example = enqueue_alone begun.0 half-Holds (omega arith) 6

dequeue_alone_example :
    ((x : ℕ) (q : List ℕ)
      → Holds small_ring half (x ∷ q)
      → (solo small_ring 5 half deq_head).1 ≡ dequeued (some x)
        × Holds small_ring (solo small_ring 5 half deq_head).0 q)
    × (Holds small_ring half [] → solo small_ring 4 half deq_head ≡ (half, dequeued none))
dequeue_alone_example = dequeue_alone begun.0 (omega arith)

enqueue_spins_when_full_example :
    ((solo plain_ring 9 full (enq_tail 1)).1 ≡ enq_tail 1)
    ⊎ ((solo plain_ring 9 full (enq_tail 1)).1 ≡ enq_seq 1 6)
enqueue_spins_when_full_example =
    enqueue_spins_when_full plain-IsRing full-Holds (omega arith) 1 refl refl 9

abbrev one_ring : Ring
one_ring = record { pow2 = false; linked = true; size = 1; mask = 0 }

abbrev one_fresh : Shared
one_fresh = init_slots one_ring 0

one_fresh-OneCell : OneCell one_ring one_fresh
unfolding slot init_slots init_cells
one_fresh-OneCell = record { single = λ t. omega arith; next = refl; empty = refl }

one_cell_loses_example :
    ((solo one_ring 5 one_fresh (enq_tail 1)).1 ≡ enqueued true)
    × ((solo one_ring 5 (solo one_ring 5 one_fresh (enq_tail 1)).0 (enq_tail 2)).1 ≡ enqueued true)
    × ((n : ℕ) (v : Option ℕ)
        → (solo one_ring n
            (solo one_ring 5 (solo one_ring 5 one_fresh (enq_tail 1)).0 (enq_tail 2)).0
            deq_head).1
          ≢ dequeued v)
unfolding init_slots
one_cell_loses_example = one_cell_loses one_ring one_fresh one_fresh-OneCell (omega arith) 1 2

abbrev seeded_at_five : Shared
seeded_at_five = record {
  head = 5;
  tail = 6;
  cells =
      update (init_cells plain_ring 2 5 (λ _. record { val = 0; seq = 0 })) 0
        (record { val = 9; seq = 6 });
}

seeded_made : construct_with false false 9 2 5 ≡ some (plain_ring, seeded_at_five)
unfolding construct_with construct make_ring real_size init_slots slot
seeded_made = refl

construct_with_loses_example : (solo plain_ring 9 seeded_at_five deq_head).1 ≢ dequeued (some 9)
construct_with_loses_example =
    construct_with_loses false 9 2 5 (omega arith) (omega arith) (omega arith) (omega arith)
      seeded_made 9 (some 9)

-- The segment of a fresh ring.
abbrev fresh_segment : Segment pair_ring
fresh_segment = pair_segment.fresh

segment_runs_example :
    let s = fresh_segment in
    let put = S.put pair_ring pair_ring-IsRing 7 s in
    let get = S.get pair_ring pair_ring-IsRing s in
    ((n : ℕ) × (solo pair_ring n (memory s) (enq_tail 7) ≡ (memory put.0, enqueued put.1)))
    × ((n : ℕ) × (solo pair_ring n (memory s) deq_head ≡ (memory get.0, dequeued get.1)))
    × (put.0.queue ≡ (if put.1 then s.queue ++ (7 ∷ []) else s.queue))
    × (s.queue ≡ listed get.1 get.0.queue)
unfolding S.fresh init_slots
segment_runs_example = segment_runs pair_ring pair_ring-IsRing 7 fresh_segment refl (omega arith)
