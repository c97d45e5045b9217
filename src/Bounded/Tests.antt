-- ===== src/Bounded/Tests.antt =====
-- The bounded proxies over rings of `LinkedCASLoop` and over segments of two cells.
use mpmc_queues.Base.{◌≡◌, refl, arith, true, false, some, List, [], ◌∷◌}
use mpmc_queues.Unbounded as U
use mpmc_queues.Unbounded.{enqueue, dequeue}
use mpmc_queues.Unbounded.Spec.{contents}
use mpmc_queues.Unbounded.TwoCells.{Cells, two_cells}
use mpmc_queues.CasLoop.Segment.{Segment}
use mpmc_queues.CasLoop.Linked.{pair_ring, pair_segment}
use mpmc_queues.Bounded.Machine.{Event, run, invoke, next, run_all, begin, AllMoves}
use mpmc_queues.Bounded.Counter as Counter
use mpmc_queues.Bounded.Chunk as Chunk
use mpmc_queues.Bounded.Counter.Refine as CounterProxy
use mpmc_queues.Bounded.Chunk.Refine as ChunkProxy
use mpmc_queues.Bounded.Counter.Spurious.{solo, refused_while_empty}

abbrev one_item : Counter.Config
one_item = record { info_required = true; full_capacity = 1; chunk_factor = 1 }

abbrev counter_start : Counter.Shared (Segment pair_ring)
counter_start = record {
  list = U.construct pair_segment;
  pushed = 0;
  popped = 0;
  last_seen = λ _. 0;
}

counter_made : Counter.construct pair_segment one_item ≡ some counter_start
unfolding Counter.construct
counter_made = refl

-- The second enqueue finds the one place taken.
abbrev two_puts : List Event
two_puts =
    invoke 0 (enqueue 10)
    ∷ run 0
    ∷ run 0
    ∷ run 0
    ∷ run 0
    ∷ run 0
    ∷ run 0
    ∷ invoke 0 (enqueue 11)
    ∷ run 0
    ∷ run 0
    ∷ run 0
    ∷ run 0
    ∷ []

abbrev cells_start : Counter.Shared Cells
cells_start = record { list = U.construct two_cells; pushed = 0; popped = 0; last_seen = λ _. 0 }

second_refused :
    (run_all
        (CounterProxy.machine two_cells one_item)
        two_puts
        (begin (CounterProxy.machine two_cells one_item) cells_start)).pc
      0
    ≡ Counter.enqueued false
unfolding run_all next begin Counter.step Counter.call Counter.capacity_respected U.construct
second_refused = refl

counter_refines_example :
    let k = CounterProxy.machine pair_segment one_item in
    (contents pair_segment counter_start.list ≡ []) × AllMoves k two_puts (begin k counter_start)
counter_refines_example =
    CounterProxy.counter_refines pair_segment one_item counter_start two_puts counter_made

refused_while_empty_example :
    let a = solo pair_segment one_item 3 0 counter_start (Counter.enq_protect 10) in
    let b = solo pair_segment one_item 6 1 a.0 (Counter.enq_protect 11) in
    let d = solo pair_segment one_item 4 1 b.0 Counter.deq_start in
    let e = solo pair_segment one_item 1 0 d.0 a.1 in
    (b.1 ≡ Counter.enqueued true)
    × (d.1 ≡ Counter.dequeued (some 11))
    × (e.1 ≡ Counter.enqueued false)
    × (contents pair_segment e.0.list ≡ [])
refused_while_empty_example =
    refused_while_empty pair_segment one_item counter_start 10 11 counter_made (omega arith)
      (omega arith)

abbrev two_chunks : Chunk.Config
two_chunks = record { info_required = true; chunk_factor = 2; max_threads = 2 }

abbrev chunk_start : Chunk.Shared (Segment pair_ring)
chunk_start = record {
  list = U.construct pair_segment;
  tail_idx = 1;
  head_idx = 1;
  op_counter = λ _. 0;
  last_seen = λ _. 0;
}

chunk_made : Chunk.construct pair_segment two_chunks 4 ≡ some chunk_start
unfolding Chunk.construct
chunk_made = refl

chunk_refines_example :
    let k = ChunkProxy.machine pair_segment two_chunks in
    (contents pair_segment chunk_start.list ≡ []) × AllMoves k two_puts (begin k chunk_start)
chunk_refines_example =
    ChunkProxy.chunk_refines pair_segment two_chunks 4 chunk_start two_puts chunk_made
