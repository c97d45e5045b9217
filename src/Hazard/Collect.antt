-- ===== src/Hazard/Collect.antt =====
-- `collect` deletes retired objects that no hazard pointer protects, and loses none.
use mpmc_queues.Base.{
  ℕ, zero, suc, ◌+◌, ◌≤◌, ◌<◌, ◌≡◌, ◌≢◌, refl, arith, Bool, true, false, ◌==◌, ltb, Bool-cases, inl,
  inr, List, [], ◌∷◌, ◌++◌, length, count, tally, count-append, length-append, ne→==, ℕ_discrete,
  ◌&&◌,
}
use mpmc_queues.Hazard.{
  Config, Cells, at, swap_pop, scan_threads, collect_loop, collect, retire, null,
}
use mpmc_queues.Hazard.Scan.{threads_found, threads_missed}
use mpmc_queues.Hazard.Vectors.{length-swap_pop, count-swap_pop, at-swap_pop, count_absent}

module _ (c : Config) (loads : ℕ → Cells) where
  -- Some slot of some thread holds the object at every moment.
  abbrev pub IsProtected : ℕ → Type 0
  IsProtected x =
      (t : ℕ) × (slot : ℕ) × (t < c.max_threads)
      × (slot < c.max_hps)
      × ((n : ℕ) → loads n t slot ≡ x)

  abbrev pub IsUnprotected : ℕ → Type 0
  IsUnprotected x = (n t slot : ℕ) → t < c.max_threads → slot < c.max_hps → loads n t slot ≢ x

  abbrev found : (obj moment : ℕ) → Bool
  found obj moment = (scan_threads loads c.max_hps obj c.max_threads 0 moment).0

  loop_conserves :
      (x fuel i : ℕ) (v : List ℕ) (moment : ℕ)
      → let r = collect_loop fuel c loads i v moment in count x r.0 + count x r.1 ≡ count x v
  unfolding collect_loop
  loop_conserves x zero i v moment = omega arith
  loop_conserves x (suc fuel) i v moment = elim (Bool-cases (ltb i (length v))) [
    | inl more ↦ elim (Bool-cases (found (at v i) moment)) [
      | inl y ↦ rw (more, y) (loop_conserves x fuel (i + 1) v _)
      | inr n ↦
          let s = scan_threads loads c.max_hps (at v i) c.max_threads 0 moment in
          rw (more, n)
            (omega (
              arith,
              loop_conserves x fuel i (swap_pop v i) s.1,
              count-swap_pop v i (ground arith) x,
            ))
    ]
    | inr done ↦ rw done (omega arith)
  ]

  loop_spares :
      (x fuel i : ℕ) (v : List ℕ) (moment : ℕ)
      → IsProtected x
      → count x (collect_loop fuel c loads i v moment).1 ≡ 0
  unfolding collect_loop
  loop_spares x zero i v moment p = refl
  loop_spares x (suc fuel) i v moment p = elim (Bool-cases (ltb i (length v))) [
    | inl more ↦ elim (Bool-cases (found (at v i) moment)) [
      | inl y ↦ rw (more, y) (loop_spares x fuel (i + 1) v _ p)
      | inr n ↦
          let (t, slot, lt, ls, holds) = p in
          let other : x ≢ at v i = λ e.
            let w : found (at v i) moment ≡ true = rw (← e) (
              threads_found loads x c.max_hps t slot c.max_threads 0 moment holds ls (omega arith)
                (omega arith)) in
            cc in
          rw (more, n, ne→== x (at v i) other)
            (omega (arith, loop_spares x fuel i (swap_pop v i) _ p))
    ]
    | inr done ↦ rw done refl
  ]

  loop_frees :
      (x fuel i : ℕ) (v : List ℕ) (moment : ℕ)
      → IsUnprotected x
      → length v ≤ i + fuel
      → ((j : ℕ) → j < i → at v j ≢ x)
      → count x (collect_loop fuel c loads i v moment).0 ≡ 0
  unfolding collect_loop
  loop_frees x zero i v moment p enough seen = count_absent x v (λ j lt. seen j (omega arith))
  loop_frees x (suc fuel) i v moment p enough seen = elim (Bool-cases (ltb i (length v))) [
    | inl more ↦ elim (Bool-cases (found (at v i) moment)) [
      | inl y ↦
          let other : at v i ≢ x = λ e.
            let w : found (at v i) moment ≡ false = rw e (
              threads_missed loads x c.max_hps c.max_threads 0 moment
                (λ k t slot lt ls. p k t slot (omega arith) ls)) in
            cc in
          let seen' : (j : ℕ) → j < i + 1 → at v j ≢ x =
            λ j lt. elim (ℕ_discrete j i) [ yes e ↦ rw e other | no ne ↦ seen j (omega arith) ] in
          rw (more, y) (loop_frees x fuel (i + 1) v _ p (omega arith) seen')
      | inr n ↦
          let l : i < length v = ground arith in
          rw (more, n)
            (loop_frees x fuel i (swap_pop v i) _ p (omega (arith, length-swap_pop v i l))
              (λ j lt. rw (at-swap_pop v i l j lt) (seen j lt)))
    ]
    | inr done ↦ rw done (count_absent x v (λ j lt. seen j (ground arith)))
  ]

  -- Whatever the hazard pointers do while `collect` runs, each occurrence of an object in the list
  -- is either kept or deleted. An object that some slot holds all the time is not deleted, and one
  -- that no slot ever holds is not kept.
  pub collect_exact :
      (v : List ℕ) (x : ℕ)
      → let r = collect c loads v in
        (count x r.0 + count x r.1 ≡ count x v)
        × (IsProtected x → count x r.1 ≡ 0)
        × (IsUnprotected x → (count x r.0 ≡ 0) × (count x r.1 ≡ count x v))
  unfolding collect
  collect_exact v x =
      let all = loop_conserves x (length v) 0 v 0 in
      (
        all,
        λ p. loop_spares x (length v) 0 v 0 p,
        λ u.
            let none_left : count x (collect_loop (length v) c loads 0 v 0).0 ≡ 0 =
              loop_frees x (length v) 0 v 0 u (omega arith) (λ j lt. absurd (omega arith)) in
            (none_left, omega (arith, all, none_left)),
      )

  -- `retire` of a null pointer does nothing. Of any other it adds the object to the list; then, if
  -- the list is to reach a threshold that it does not reach, nothing is deleted; else the objects
  -- that no slot ever holds are deleted, this one included, and the ones held all the time are not.
  retire_exact :
      (v : List ℕ) (ptr x : ℕ) (check : Bool)
      → let r = retire c loads ptr check v in
        (ptr ≡ null → r ≡ (v, []))
        × (ptr ≢ null → count x r.0 + count x r.1 ≡ count x v + tally x ptr)
        × (check ≡ true → suc (length v) < c.threshold → r.1 ≡ [])
        × (IsProtected x → count x r.1 ≡ 0)
        × (ptr ≢ null → check ≡ false → IsUnprotected x → count x r.1 ≡ count x v + tally x ptr)
  unfolding retire
  retire_exact v ptr x check =
      let v' = v ++ (ptr ∷ []) in
      let longer : length v' ≡ suc (length v) = omega (arith, length-append v (ptr ∷ [])) in
      let more : count x v' ≡ count x v + tally x ptr =
        omega (arith, count-append x v (ptr ∷ [])) in
      let (all, spared, freed) = collect_exact v' x in
      elim (Bool-cases (ptr == null)) [
        | inl z ↦
            let e : ptr ≡ null = ground arith in
            rw z (λ w. refl, λ ne. absurd (ne e), λ w lt. refl, λ p. refl, λ ne w u. absurd (ne e))
        | inr nz ↦
            let ne : ptr ≢ null = ground arith in
            elim (Bool-cases (check && ltb (length v') c.threshold)) [
              | inl skip ↦
                  rw (nz, skip)
                    (
                      λ e. absurd (ne e),
                      λ w. omega (arith, more),
                      λ w lt. refl,
                      λ p. refl,
                      λ w no_check u. absurd (ground arith),
                    )
              | inr go ↦
                  rw (nz, go)
                    (
                      λ e. absurd (ne e),
                      λ w. omega (arith, all, more),
                      λ w lt. absurd (ground (arith, longer)),
                      spared,
                      λ w no_check u. omega (arith, (freed u).1, more),
                    )
            ]
      ]
