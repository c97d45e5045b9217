-- ===== src/Recycler/Tests.antt =====
-- `Recycler` over a ring that is a list.
use mpmc_queues.Base.{
  ℕ, zero, suc, ◌+◌, ◌*◌, ◌^◌, ◌<◌, ◌≡◌, ◌≢◌, refl, arith, Bool, count, true, false, none, some,
  ◌⊎◌, List, [], ◌∷◌,
}
use mpmc_queues.Epoch as EpochCell
use mpmc_queues.Bit.{set_msb}
use mpmc_queues.Ring.Listed.{list_ring}
use mpmc_queues.Recycler.{
  Config, Shared, rec_get, bucket_of, grace, retire, reclaim, ret_look, rec_look, returned, gave,
}
use mpmc_queues.Recycler.System.{Event, run, invoke, next, run_all, begin, pooled, client, pending}
use mpmc_queues.Recycler.Returns.{gives, takes}
use mpmc_queues.Recycler.Held.{held, in_pool}
use mpmc_queues.Recycler.Safety.{one_owner}
use mpmc_queues.Recycler.Runs.{solo}
use mpmc_queues.Recycler.Grace.{OneReader, reclaimed_under_reader}

abbrev three : Config
three = record { capacity = 3; max_threads = 2; no_cache = true; min_order = 2 }

-- Thread 0 reclaims an index.
abbrev one_reclaim : List Event
one_reclaim =
    invoke 0 reclaim ∷ run 0 ∷ run 0 ∷ run 0 ∷ run 0 ∷ run 0 ∷ invoke 0 (retire 0) ∷ run 0 ∷ []

one_owner_example :
    let s = run_all list_ring three one_reclaim (begin list_ring three 0) in
    ((x : ℕ) → held list_ring s.mem.buckets 5 x ≡ in_pool (s.place x))
    × ((i x : ℕ)
        → let after = next list_ring three (run i) s in
          gives (s.pc i) ≡ none
          → gives (after.pc i) ≡ some x
          → ((s.place x ≡ pooled) ⊎ (s.place x ≡ pending i)) × (after.place x ≡ client))
    × ((i a : ℕ) (act : Bool) (epoch x : ℕ)
        → s.pc i ≡ rec_get a act epoch
        → takes ((next list_ring three (run i) s).pc i) ≡ some x
        → count x (list_ring.items (s.mem.buckets (bucket_of epoch grace)).ring) ≡ 0)
one_owner_example =
    one_owner list_ring three 0 one_reclaim (omega arith) (omega arith) (omega arith)

-- Thread 0 is active at epoch 0, and the client has every index.
abbrev read_at_zero : Shared list_ring
read_at_zero = record {
  epoch = 0;
  cells = λ i. elim i [ zero ↦ 2 ^ 63 | suc _ ↦ 0 ];
  buckets = λ _. record { scq_order = 2; ring = [] };
  atom = 0;
}

read_at_zero-OneReader : OneReader list_ring 3 0 0 2 1 read_at_zero
unfolding EpochCell.snapshot set_msb
read_at_zero-OneReader = record {
  at = refl;
  reads = refl;
  quiet = quiet;
  free_empty = refl;
  grace_empty = refl;
  order_is = refl;
  in_range = omega arith;
  small = omega arith;
}
  where
    quiet : (k : ℕ) → k < 3 → k ≢ 0 → (EpochCell.snapshot (read_at_zero.cells k)).0 ≡ false
    quiet zero lt ne = absurd (ne refl)
    quiet (suc k) lt ne = refl

reclaimed_under_reader_example :
    let retired = solo list_ring 5 3 1 read_at_zero (ret_look 1) in
    let reclaimed = solo list_ring (4 + (3 * 2 + 6)) 3 2 retired.0 rec_look in
    (retired.1 ≡ returned)
    × (reclaimed.1 ≡ gave (some 1))
    × (EpochCell.snapshot (reclaimed.0.cells 0) ≡ (true, 0))
reclaimed_under_reader_example =
    reclaimed_under_reader list_ring 3 0 1 2 0 2 1 read_at_zero (omega arith) (omega arith)
      (omega arith) (omega arith) (omega arith) read_at_zero-OneReader
