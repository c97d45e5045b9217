-- ===== src/Bucket/Overflow.antt =====
-- The head of a `PhasedBucket` that is polled while it is empty.
use mpmc_queues.Base.{
  ℕ, zero, suc, ◌+◌, ◌-◌, ◌*◌, ◌^◌, ◌≤◌, ◌<◌, ◌≡◌, ◌≢◌, refl, ap, ◌∙◌, arith, inr, Option, none,
  some, update, eq→==, lt→ltb, le→ltb,
}
use mpmc_queues.Bucket.{Phased, construct, enqueue, dequeue, drain}
use mpmc_queues.Bucket.Steps.{enqueue-eq, dequeue-none}

module _ (capacity : ℕ) (small : capacity + 1 < 2 ^ 32) (two : 2 ≤ capacity) where
  fresh : ℕ → ℕ
  fresh _ = capacity

  -- Every poll of an empty bucket adds one to the head.
  polls :
      (n h : ℕ)
      → h + n < 2 ^ 32
      → (drain capacity n (record { state = h; buffer = λ _. capacity })).0
        ≡ record { state = h + n; buffer = λ _. capacity }
  unfolding drain
  polls zero h lt = let e : h + 0 ≡ h = omega arith in rw e refl
  polls (suc n) h lt =
      let b : Phased = record { state = h; buffer = λ _. capacity } in
      let r =
        dequeue-none capacity small 0 h b (omega arith) (omega arith) (omega arith)
          (λ i li. refl) in
      let e : h + suc n ≡ h + 1 + n = omega arith in rw (r, e) (polls n (h + 1) (omega arith))

  brim : Phased
  brim = record { state = 2 ^ 32 - 1; buffer = λ _. capacity }

  spilled : dequeue capacity brim ≡ (record { state = 2 ^ 32; buffer = λ _. capacity }, none)
  unfolding dequeue brim
  spilled = rw (le→ltb (2 ^ 32 - 1) capacity (omega arith)) refl

  stranded : ℕ → Phased
  stranded x = record { state = (1 + 1) * 2 ^ 32; buffer = update (λ _. capacity) 1 x }

  missed :
      (x : ℕ)
      → ((dequeue capacity (stranded x)).1 ≡ none)
        × ((dequeue capacity (stranded x)).0.buffer 1 ≡ x)
  unfolding dequeue stranded
  missed x = rw (lt→ltb 0 capacity (omega arith), eq→== capacity capacity refl) (refl, refl)

  -- A fresh bucket of capacity at least 2 that is polled `2 ^ 32` times while it is empty carries into
  -- its tail. The next enqueue of an item succeeds, and the dequeue after it returns false, although nothing has taken
  -- the item.
  pub polling_loses :
      (x : ℕ)
      → x ≢ capacity
      → let polled = (dequeue capacity (drain capacity (2 ^ 32 - 1) (construct capacity)).0).0 in
        (b : Phased) × (enqueue capacity x polled ≡ some b)
        × ((dequeue capacity b).1 ≡ none)
        × ((dequeue capacity b).0.buffer 1 ≡ x)
  unfolding construct brim stranded
  polling_loses x ne =
      let full : (drain capacity (2 ^ 32 - 1) (construct capacity)).0 ≡ brim =
        polls (2 ^ 32 - 1) 0 (omega arith) in
      let over : Phased = record { state = 2 ^ 32; buffer = λ _. capacity } in
      let polled : (dequeue capacity (drain capacity (2 ^ 32 - 1) (construct capacity)).0).0
          ≡ over =
        ap (λ (b : Phased). (dequeue capacity b).0) full
        ∙ ap (λ (r : Phased × Option ℕ). r.0) spilled in
      (
        stranded x,
        ap (enqueue capacity x) polled
            ∙ enqueue-eq capacity small 1 0 x over refl (inr refl) (omega arith) (omega arith) ne
                refl,
        (missed x).0,
        (missed x).1,
      )
