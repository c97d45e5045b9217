-- ===== src/Bucket/Tests.antt =====
-- `PhasedBucket` of two slots.
use mpmc_queues.Base.{ℕ, ◌+◌, ◌-◌, ◌^◌, ◌<◌, ◌≡◌, refl, arith, some, none, List, [], ◌∷◌, length}
use mpmc_queues.Bucket.{Phased, construct, enqueue, dequeue, fill, drain, size}
use mpmc_queues.Bucket.Phases.{IsDrained, AreItems, answers, phases}
use mpmc_queues.Bucket.Overflow.{polling_loses}

-- A bucket whose head is left over from an earlier phase.
abbrev stale : Phased
stale = record { state = 3; buffer = λ _. 2 }

stale-IsDrained : IsDrained 2 stale
stale-IsDrained = record { low = omega arith; vacant = λ i li. refl }

abbrev items : List ℕ
items = 7 ∷ 8 ∷ []

items-AreItems : AreItems 2 items
items-AreItems = (omega arith, (omega arith, tt))

phases_example :
    (b' : Phased) × (fill 2 items stale ≡ some b')
    × (0 < length items → size 2 b' ≡ length items)
    × ((drain 2 (length items + 1) b').1 ≡ answers items)
    × ((i : ℕ) → i < 2 → (drain 2 (length items + 1) b').0.buffer i ≡ 2)
    × (0 < length items → (drain 2 (length items + 1) b').0.state ≡ length items + 1)
phases_example = phases 2 (omega arith) stale items stale-IsDrained (omega arith) items-AreItems

polling_loses_example :
    let polled = (dequeue 2 (drain 2 (2 ^ 32 - 1) (construct 2)).0).0 in
    (b : Phased) × (enqueue 2 9 polled ≡ some b)
    × ((dequeue 2 b).1 ≡ none)
    × ((dequeue 2 b).0.buffer 1 ≡ 9)
polling_loses_example = polling_loses 2 (omega arith) (omega arith) 9 (omega arith)
