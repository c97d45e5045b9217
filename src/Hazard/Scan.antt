-- ===== src/Hazard/Scan.antt =====
-- What the scan of the hazard pointers finds.
use mpmc_queues.Base.{
  ℕ, zero, suc, ◌+◌, ◌≤◌, ◌<◌, ◌≡◌, ◌≢◌, refl, arith, true, false, ◌==◌, Bool-cases, inl, inr,
  ne→==,
}
use mpmc_queues.Hazard.{Cells, scan_slots, scan_threads}

-- A slot that holds the object at every moment is found.
module _ (loads : ℕ → Cells) (obj : ℕ) where
  slots_found :
      (t slot rounds h moment : ℕ)
      → ((n : ℕ) → loads n t slot ≡ obj)
      → h ≤ slot
      → slot < h + rounds
      → (scan_slots loads obj t rounds h moment).0 ≡ true
  unfolding scan_slots
  slots_found t slot zero h moment holds le lt = absurd (omega arith)
  slots_found t slot (suc n) h moment holds le lt = elim (Bool-cases (loads moment t h == obj)) [
    | inl y ↦ rw y refl
    | inr no_match ↦
        let ne : h ≢ slot =
          λ e. let w : loads moment t h ≡ obj = rw e (holds moment) in absurd (ground (arith, w)) in
        rw no_match (slots_found t slot n (h + 1) (moment + 1) holds (omega arith) (omega arith))
  ]

  slots_missed :
      (t rounds h moment : ℕ)
      → ((n slot : ℕ) → slot < h + rounds → loads n t slot ≢ obj)
      → (scan_slots loads obj t rounds h moment).0 ≡ false
  unfolding scan_slots
  slots_missed t zero h moment holds = refl
  slots_missed t (suc n) h moment holds =
      rw (ne→== (loads moment t h) obj (holds moment h (omega arith)))
        (slots_missed t n (h + 1) (moment + 1) (λ k slot lt. holds k slot (omega arith)))

  -- A thread and a slot that the scan passes.
  pub threads_found :
      (hps t slot rounds first moment : ℕ)
      → ((n : ℕ) → loads n t slot ≡ obj)
      → slot < hps
      → first ≤ t
      → t < first + rounds
      → (scan_threads loads hps obj rounds first moment).0 ≡ true
  unfolding scan_threads
  threads_found hps t slot zero first moment holds in_slots le lt = absurd (omega arith)
  threads_found hps t slot (suc n) first moment holds in_slots le lt =
      let s = scan_slots loads obj first hps 0 moment in
      elim (Bool-cases s.0) [
        | inl y ↦ rw y refl
        | inr no_match ↦
            let ne : first ≢ t = λ e.
              let w : s.0 ≡ true =
                rw e (slots_found t slot hps 0 moment holds (omega arith) (omega arith)) in
              cc in
            rw no_match (
              threads_found hps t slot n (first + 1) s.1 holds in_slots (omega arith) (omega arith))
      ]

  pub threads_missed :
      (hps rounds first moment : ℕ)
      → ((n t slot : ℕ) → t < first + rounds → slot < hps → loads n t slot ≢ obj)
      → (scan_threads loads hps obj rounds first moment).0 ≡ false
  unfolding scan_threads
  threads_missed hps zero first moment holds = refl
  threads_missed hps (suc n) first moment holds =
      let s = scan_slots loads obj first hps 0 moment in
      rw
        (slots_missed first hps 0 moment
          (λ k slot lt. holds k first slot (omega arith) (omega arith)))
        (threads_missed hps n (first + 1) s.1
          (λ k t slot lt in_slots. holds k t slot (omega arith) in_slots))
