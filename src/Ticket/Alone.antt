-- ===== src/Ticket/Alone.antt =====
-- A thread of `DynamicThreadTicket` that runs `acquire` by itself.
use mpmc_queues.Base.{
  ℕ, zero, suc, ◌+◌, ◌*◌, ◌/◌, ◌%◌, ◌^◌, ◌≤◌, ◌<◌, ◌≡◌, ◌≢◌, refl, ap, ◌∙◌, arith, false, ◌==◌, leb,
  lt→ltb, Bool-cases, inl, inr, ℕ_discrete, ne→==, eq→==, update, digit, digit_zero, dec_lt, lt→leb,
}
use mpmc_queues.Ticket.{
  Pc, acq_enter, acq_load, acq_cas, acquired, refused, no_ticket, cap, num_cells, scan, claim, step,
  count_trailing_zeros,
}
use mpmc_queues.Ticket.Words.{free_bit, ctz_lem, free_before}

-- `n` accesses in a row, no exchange failing spuriously.
unfoldable pub solo : (n m : ℕ) → (storage : ℕ → ℕ) → (local : ℕ) → Pc → (ℕ → ℕ) × ℕ × Pc
solo zero m storage local p = (storage, local, p)
solo (suc n) m storage local p =
    let (storage', local', p') = step m false storage local p in solo n m storage' local' p'

solo-acquired :
    (m : ℕ) (storage : ℕ → ℕ) (n local t : ℕ)
    → solo n m storage local (acquired t) ≡ (storage, local, acquired t)
unfolding solo step
solo-acquired m storage zero local t = refl
solo-acquired m storage (suc n) local t = solo-acquired m storage n local t

abbrev Result : Type 0
Result = (ℕ → ℕ) × ℕ × Pc

module _ (m : ℕ) (storage : ℕ → ℕ) where
  solo-suc :
      (n local : ℕ) (p : Pc) (s' : ℕ → ℕ) (l' : ℕ) (p' : Pc)
      → step m false storage local p ≡ (s', l', p')
      → solo (suc n) m storage local p ≡ solo n m s' l' p'
  unfolding solo
  solo-suc n local p s' l' p' e = ap (λ (r : Result). solo n m r.0 r.1 r.2) e

  solo-refused : (n local : ℕ) → solo n m storage local refused ≡ (storage, local, refused)
  unfolding solo step
  solo-refused zero local = refl
  solo-refused (suc n) local = solo-refused n local

  run-load :
      (cell local : ℕ)
      → cell < num_cells
      → step m false storage local (acq_load cell) ≡ (storage, local, scan m cell (storage cell))
  unfolding step
  run-load cell local lt = rw (lt→ltb cell num_cells lt)

  run-last :
      (local : ℕ) → step m false storage local (acq_load num_cells) ≡ (storage, local, refused)
  unfolding step
  run-last local = refl

  run-cas :
      (cell local : ℕ)
      → let t = cell * 64 + count_trailing_zeros (storage cell) in
        step m false storage local (acq_cas cell (storage cell))
        ≡ (update storage cell (claim (storage cell)), t, acquired t)
  unfolding step
  run-cas cell local = rw (eq→== (storage cell) (storage cell) refl)

  -- A cell in which no usable ticket is free is passed over.
  passes :
      (cell : ℕ)
      → storage cell < 2 ^ 64
      → ((u : ℕ) → u / 64 ≡ cell → u < m → free_bit storage u ≡ 0)
      → scan m cell (storage cell) ≡ acq_load (cell + 1)
  unfolding scan
  passes cell word busy = elim (Bool-cases (storage cell == 0)) [
    | inl z ↦ rw z
    | inr nz ↦
        let ne : storage cell ≢ 0 = ground arith in
        let u = cell * 64 + count_trailing_zeros (storage cell) in
        let (l, one, _) = ctz_lem (storage cell) ne word in
        elim (Bool-cases (leb m u)) [
          | inl out ↦ rw (nz, out)
          | inr fits ↦
              absurd (
                omega
                  (arith, busy u (omega arith) (ground arith), free_before storage cell ne word))
        ]
  ]

  -- The least free ticket is found in its cell.
  finds :
      (t : ℕ)
      → storage (t / 64) < 2 ^ 64
      → t < m
      → free_bit storage t ≡ 1
      → ((u : ℕ) → u < t → free_bit storage u ≡ 0)
      → (scan m (t / 64) (storage (t / 64)) ≡ acq_cas (t / 64) (storage (t / 64)))
        × (t / 64 * 64 + count_trailing_zeros (storage (t / 64)) ≡ t)
  unfolding scan
  finds t word lt free least =
      let cell = t / 64 in
      let ne : storage cell ≢ 0 =
        λ z. let f : digit 0 (t % 64) ≡ 1 = rw z at free in omega (arith, f, digit_zero (t % 64)) in
      let (l, one, zeros) = ctz_lem (storage cell) ne word in
      let u = cell * 64 + count_trailing_zeros (storage cell) in
      let e : u ≡ t = elim (dec_lt u t) [
        | yes below ↦ absurd (omega (arith, least u below, free_before storage cell ne word))
        | no above ↦ elim (dec_lt t u) [
          | yes over ↦ absurd (omega (arith, zeros (t % 64) (omega arith), free))
          | no under ↦ omega arith
        ]
      ] in
      (rw (ne→== (storage cell) 0 ne, e, lt→leb m t lt), e)

  -- With the cells before `cell` passed, the rest of the run takes at most two accesses more than
  -- there are cells left.
  from_load-found :
      (t : ℕ)
      → t < m
      → m ≤ cap
      → ((c : ℕ) → storage c < 2 ^ 64)
      → free_bit storage t ≡ 1
      → ((u : ℕ) → u < t → free_bit storage u ≡ 0)
      → (k cell local : ℕ) → cell + k ≡ num_cells
      → cell ≤ t / 64
      → solo (suc k) m storage local (acq_load cell)
        ≡ (update storage (t / 64) (claim (storage (t / 64))), t, acquired t)
  from_load-found t lt small words free least zero cell local sum le = absurd (omega arith)
  from_load-found t lt small words free least (suc k) cell local sum le =
      elim (ℕ_discrete cell (t / 64)) [
        | yes here ↦
            let (found, same) = finds t (words (t / 64)) lt free least in
            let after = update storage (t / 64) (claim (storage (t / 64))) in
            rw here (
              solo-suc (suc k) local (acq_load (t / 64)) storage local
                (acq_cas (t / 64) (storage (t / 64)))
                (run-load (t / 64) local (omega arith) ∙ ap (λ (p : Pc). (storage, local, p)) found)
              ∙ solo-suc k local (acq_cas (t / 64) (storage (t / 64))) after t (acquired t)
                  (run-cas (t / 64) local ∙ ap (λ (u : ℕ). (after, u, acquired u)) same)
              ∙ solo-acquired m after k t t)
        | no later ↦
            let skip : scan m cell (storage cell) ≡ acq_load (cell + 1) =
              passes cell (words cell) (λ u at lu. least u (omega arith)) in
            solo-suc (suc k) local (acq_load cell) storage local (acq_load (cell + 1))
              (run-load cell local (omega arith) ∙ ap (λ (p : Pc). (storage, local, p)) skip)
            ∙ from_load-found t lt small words free least k (cell + 1) local (omega arith)
                (omega arith)
      ]

  from_load-none :
      ((c : ℕ) → storage c < 2 ^ 64)
      → ((u : ℕ) → u < m → free_bit storage u ≡ 0)
      → (k cell local : ℕ) → cell + k ≡ num_cells
      → solo (suc k) m storage local (acq_load cell) ≡ (storage, local, refused)
  from_load-none words busy zero cell local sum =
      let last : cell ≡ num_cells = omega arith in
      rw last (
        solo-suc 0 local (acq_load num_cells) storage local refused (run-last local)
        ∙ solo-refused 0 local)
  from_load-none words busy (suc k) cell local sum =
      let skip : scan m cell (storage cell) ≡ acq_load (cell + 1) =
        passes cell (words cell) (λ u at lu. busy u lu) in
      solo-suc (suc k) local (acq_load cell) storage local (acq_load (cell + 1))
        (run-load cell local (omega arith) ∙ ap (λ (p : Pc). (storage, local, p)) skip)
      ∙ from_load-none words busy k (cell + 1) local (omega arith)

  run-enter : step m false storage no_ticket acq_enter ≡ (storage, no_ticket, acq_load 0)
  unfolding step
  run-enter = refl

  -- Let every cell be a word. A thread without a ticket that runs `acquire` by itself returns within
  -- eighteen accesses: with the least ticket below `m` that is free, which it has claimed and
  -- cached, or, when none is, with false and nothing changed.
  pub acquire_least :
      m ≤ cap
      → ((c : ℕ) → storage c < 2 ^ 64)
      → ((t : ℕ)
          → t < m
          → free_bit storage t ≡ 1
          → ((u : ℕ) → u < t → free_bit storage u ≡ 0)
          → solo 18 m storage no_ticket acq_enter
            ≡ (update storage (t / 64) (claim (storage (t / 64))), t, acquired t))
        × (((u : ℕ) → u < m → free_bit storage u ≡ 0)
            → solo 18 m storage no_ticket acq_enter ≡ (storage, no_ticket, refused))
  acquire_least small words = (
    λ t lt free least.
        solo-suc 17 no_ticket acq_enter storage no_ticket (acq_load 0) run-enter
        ∙ from_load-found t lt small words free least 16 0 no_ticket (omega arith) (omega arith),
    λ busy.
        solo-suc 17 no_ticket acq_enter storage no_ticket (acq_load 0) run-enter
        ∙ from_load-none words busy 16 0 no_ticket (omega arith),
  )
