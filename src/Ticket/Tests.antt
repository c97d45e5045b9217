-- ===== src/Ticket/Tests.antt =====
-- `DynamicThreadTicket` with two tickets.
use mpmc_queues.Base.{ℕ, ◌<◌, ◌≡◌, ◌/◌, refl, arith, false, List, [], ◌∷◌, some, update}
use mpmc_queues.Ticket.{
  construct, init_storage, no_ticket, step, scan, claim, count_trailing_zeros, ctz_loop, acquired,
  refused, acq_enter,
}
use mpmc_queues.Ticket.System.{Event, run, acquire, next, run_all, begin}
use mpmc_queues.Ticket.Words.{free_bit}
use mpmc_queues.Ticket.Inv.{Allotted}
use mpmc_queues.Ticket.Start.{init_storage-words}
use mpmc_queues.Ticket.Safety.{tickets-Allotted}
use mpmc_queues.Ticket.Alone.{solo, acquire_least}
use mpmc_queues.Ticket.Static.{get_id, get_ids, get_id_unique}
use mpmc_queues.Ticket.Static as Static

abbrev two_free : ℕ → ℕ
two_free = init_storage 16 0 2 (λ _. 0)

made : construct 2 ≡ some two_free
unfolding construct
made = refl

-- Two threads race for ticket 0; the loser takes ticket 1, and a third is refused.
abbrev race : List Event
race =
    acquire 0
    ∷ acquire 1
    ∷ run 0 false
    ∷ run 1 false
    ∷ run 0 false
    ∷ run 1 false
    ∷ run 1 false
    ∷ run 0 false
    ∷ run 0 false
    ∷ []

race_result : (run_all 2 race (begin two_free)).pc 0 ≡ acquired 1
unfolding run_all next step scan claim count_trailing_zeros ctz_loop init_storage begin
race_result = refl

tickets-Allotted_example :
    Allotted 2 (run_all 2 race (begin two_free)).storage (run_all 2 race (begin two_free)).local
tickets-Allotted_example = tickets-Allotted race made

acquire_least_example :
    ((t : ℕ)
      → t < 2
      → free_bit two_free t ≡ 1
      → ((u : ℕ) → u < t → free_bit two_free u ≡ 0)
      → solo 18 2 two_free no_ticket acq_enter
        ≡ (update two_free (t / 64) (claim (two_free (t / 64))), t, acquired t))
    × (((u : ℕ) → u < 2 → free_bit two_free u ≡ 0)
        → solo 18 2 two_free no_ticket acq_enter ≡ (two_free, no_ticket, refused))
acquire_least_example =
    acquire_least 2 two_free (omega arith) (init_storage-words 16 0 2 (λ _. 0) (λ _. omega arith))

-- Threads 3, 5 and 3 again, and then thread 4.
abbrev callers : List ℕ
callers = 3 ∷ 5 ∷ 3 ∷ []

get_id_unique_example :
    let (s, got) = get_id 4 (get_ids callers Static.begin) in
    (got ≡ some (s.local_id 4)) × ((j : ℕ) → s.local_id j ≡ s.local_id 4 → j ≡ 4)
get_id_unique_example = get_id_unique callers (omega arith) 4
