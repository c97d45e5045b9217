-- ===== src/Unbounded/Tests.antt =====
-- `UnboundedProxy` over segments of two cells, and over rings of `LinkedCASLoop`, on fixed schedules.
use mpmc_queues.Base.{ℕ, ◌≡◌, refl, some, List, [], ◌∷◌, ◌++◌}
use mpmc_queues.Unbounded.{enqueue, dequeue, dequeued, step, construct, call}
use mpmc_queues.Unbounded.TwoCells.{two_cells}
use mpmc_queues.CasLoop.Linked.{pair_segment}
use mpmc_queues.Unbounded.Spec.{contents}
use mpmc_queues.Unbounded.System.{Event, run, invoke, next, run_all, begin}
use mpmc_queues.Unbounded.Safety.{AllMoves, proxy_refines}

-- Three enqueues by thread 0, of which the third links a second segment.
abbrev one_put : ℕ → List Event
one_put x = invoke 0 (enqueue x) ∷ run 0 ∷ run 0 ∷ run 0 ∷ run 0 ∷ run 0 ∷ run 0 ∷ []

abbrev three_puts : List Event
three_puts = one_put 10 ++ (one_put 11 ++ one_put 12)

abbrev one_get : List Event
one_get =
    invoke 1 dequeue
    ∷ run 1
    ∷ run 1
    ∷ run 1
    ∷ run 1
    ∷ run 1
    ∷ run 1
    ∷ run 1
    ∷ run 1
    ∷ run 1
    ∷ run 1
    ∷ []

three_puts-run_all :
    contents two_cells (run_all two_cells three_puts (begin two_cells)).mem ≡ 10 ∷ 11 ∷ 12 ∷ []
unfolding run_all next begin construct step call
three_puts-run_all = refl

-- The third dequeue moves `head_` to the second segment.
third_get :
    (run_all two_cells (three_puts ++ (one_get ++ (one_get ++ one_get))) (begin two_cells)).pc 1
    ≡ dequeued (some 12)
unfolding run_all next begin construct step call
third_get = refl

proxy_refines_example :
    (contents pair_segment (begin pair_segment).mem ≡ [])
    × AllMoves pair_segment three_puts (begin pair_segment)
proxy_refines_example = proxy_refines pair_segment three_puts
