-- ===== src/Hazard/Tests.antt =====
-- Hazard pointers of two threads with one slot each.
use mpmc_queues.Base.{
  ℕ, suc, ◌+◌, ◌*◌, ◌≤◌, ◌<◌, ◌≡◌, ◌≢◌, ◌⊎◌, refl, List, [], ◌∷◌, some, none, count,
}
use mpmc_queues.Hazard.{
  Config, Cells, collect, collect_loop, scan_threads, scan_slots, at, set_at, back, pop_back,
  swap_pop, protect, clear, protect_atom, null,
}
use mpmc_queues.Hazard.Collect.{IsProtected, IsUnprotected, collect_exact}
use mpmc_queues.Hazard.Protect.{protect-clear, protect_atom_holds}

abbrev pair_of_threads : Config
pair_of_threads = record { max_threads = 2; max_hps = 1; threshold = 0 }

-- Thread 1 protects the object 8 all the time.
abbrev guarded : ℕ → Cells
guarded moment t slot = elim t [ suc _ ↦ 8 | _ ↦ 0 ]

abbrev four_retired : List ℕ
four_retired = 7 ∷ 8 ∷ 9 ∷ 10 ∷ []

collect_result : collect pair_of_threads guarded four_retired ≡ (8 ∷ [], 7 ∷ 10 ∷ 9 ∷ [])
unfolding collect collect_loop scan_threads scan_slots at set_at back pop_back swap_pop
collect_result = refl

collect_exact_example :
    let r = collect pair_of_threads guarded four_retired in
    (count 8 r.0 + count 8 r.1 ≡ count 8 four_retired)
    × (IsProtected pair_of_threads guarded 8 → count 8 r.1 ≡ 0)
    × (IsUnprotected pair_of_threads guarded 8
        → (count 8 r.0 ≡ 0) × (count 8 r.1 ≡ count 8 four_retired))
collect_exact_example = collect_exact pair_of_threads guarded four_retired 8

abbrev no_guards : Cells
no_guards _ _ = 0

protect-clear_example :
    (1 < 2
      → 0 < 1
      → (cells' : Cells) × (protect pair_of_threads 5 1 0 no_guards ≡ some cells')
        × (cells' 1 0 ≡ 5)
        × ((t h : ℕ) → (t ≢ 1) ⊎ (h ≢ 0) → cells' t h ≡ no_guards t h)
        × (no_guards 1 0 ≡ null → clear pair_of_threads 1 0 cells' ≡ some no_guards))
    × ((2 ≤ 1) ⊎ (1 ≤ 0)
        → (protect pair_of_threads 5 1 0 no_guards ≡ none)
          × (clear pair_of_threads 1 0 no_guards ≡ none))
protect-clear_example = protect-clear pair_of_threads 5 1 0 no_guards

-- The atomic changes once.
abbrev moving : ℕ → ℕ
moving n = elim n [ suc _ ↦ 4 | _ ↦ 3 ]

moving_protected : protect_atom 2 moving 0 ≡ some (4, 4)
unfolding protect_atom
moving_protected = refl

protect_atom_holds_example :
    ((fuel s : ℕ) → protect_atom fuel moving 0 ≡ some (4, s) → (0 ≤ s) × (moving (s + 1) ≡ 4))
    × ((k : ℕ)
        → ((n : ℕ) → 0 + 3 * k ≤ n → moving n ≡ 4)
        → (q : ℕ) × (s : ℕ) × (protect_atom (suc k) moving 0 ≡ some (q, s)))
protect_atom_holds_example = protect_atom_holds moving 4 0
