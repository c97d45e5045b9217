-- ===== src/Epoch/Tests.antt =====
-- `EpochCell` at one epoch.
use mpmc_queues.Base.{ℕ, ◌^◌, ◌≤◌, ◌<◌, ◌≡◌, true, false, some, none}
use mpmc_queues.Epoch.{protect, clear, is_active, snapshot}
use mpmc_queues.Epoch.Cell.{epoch_cell}

epoch_cell_example :
    (5 < 2 ^ 63
      → (word : ℕ) × (protect 5 ≡ some word)
        × (word < 2 ^ 64)
        × (snapshot word ≡ (true, 5))
        × (snapshot (clear word) ≡ (false, 5))
        × (clear (clear word) ≡ clear word))
    × (2 ^ 63 ≤ 5 → 5 < 2 ^ 64 → protect 5 ≡ none)
    × (is_active 5 ≡ (snapshot 5).0)
epoch_cell_example = epoch_cell 5
