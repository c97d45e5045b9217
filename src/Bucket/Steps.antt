-- ===== src/Bucket/Steps.antt =====
-- One call on a `PhasedBucket` whose state is a tail and a head.
use mpmc_queues.Base.{
  ℕ, ◌+◌, ◌-◌, ◌*◌, ◌^◌, ◌<◌, ◌≡◌, ◌≢◌, ◌⊎◌, refl, arith, false, not, ◌&&◌, ◌==◌, leb, ltb,
  Bool-cases, inl, inr, none, some, update, eq→==, ne→==, lt→ltb, lt→leb, if◌then◌else◌, bit_and,
}
use mpmc_queues.Bucket.{Phased, tail_of, add64, enqueue, dequeue}
use mpmc_queues.Bucket.Words.{head_part, tail_part, tail_index}

module _ (capacity : ℕ) (small : capacity + 1 < 2 ^ 32) where
  pub enqueue-eq :
      (t h x : ℕ) (b : Phased)
      → b.state ≡ t * 2 ^ 32 + h
      → (t ≡ 0) ⊎ (h ≡ 0)
      → h < 2 ^ 32
      → t < capacity
      → x ≢ capacity
      → b.buffer t ≡ capacity
      → enqueue capacity x b
        ≡ some (record { state = (t + 1) * 2 ^ 32; buffer = update b.buffer t x })
  unfolding enqueue
  enqueue-eq t h x b st fresh lh lt ne vacant =
      let idx : tail_of b.state ≡ t = rw st (tail_index t h (omega arith) lh) in
      let low : bit_and b.state (2 ^ 32 - 1) ≡ h = rw st (head_part t h (omega arith) lh) in
      let next : (if bit_and b.state (2 ^ 32 - 1) == 0
            then add64 b.state (2 ^ 32)
            else bit_and (add64 b.state (2 ^ 32)) (2 ^ 64 - 2 ^ 32))
          ≡ (t + 1) * 2 ^ 32 =
        elim (Bool-cases (h == 0)) [
          | inl z ↦ rw (low, z) (let e : h ≡ 0 = ground arith in omega arith)
          | inr dirty ↦
              let e : t ≡ 0 = elim fresh [ inl y ↦ y | inr n ↦ absurd (ground arith) ] in
              let sum : add64 b.state (2 ^ 32) ≡ 1 * 2 ^ 32 + h = omega arith in
              rw (low, dirty, sum) (omega (arith, tail_part 1 h (omega arith) lh))
        ] in
      let room : leb capacity t ≡ false = lt→leb capacity t lt in
      rw (next, idx, ne→== x capacity ne, room, eq→== (b.buffer t) capacity vacant) refl

  pub dequeue-some :
      (t h : ℕ) (b : Phased)
      → b.state ≡ t * 2 ^ 32 + h
      → t < 2 ^ 32
      → h < capacity
      → b.buffer h ≢ capacity
      → dequeue capacity b ≡ (
        record { state = t * 2 ^ 32 + (h + 1); buffer = update b.buffer h capacity },
        some (b.buffer h),
      )
  unfolding dequeue
  dequeue-some t h b st lt lh ne =
      let low : bit_and b.state (2 ^ 32 - 1) ≡ h = rw st (head_part t h lt (omega arith)) in
      let up : add64 b.state 1 ≡ t * 2 ^ 32 + (h + 1) = omega arith in
      rw (low, lt→ltb h capacity lh, ne→== (b.buffer h) capacity ne, up) refl

  pub dequeue-none :
      (t h : ℕ) (b : Phased)
      → b.state ≡ t * 2 ^ 32 + h
      → t < 2 ^ 32
      → h + 1 < 2 ^ 32
      → ((i : ℕ) → i < capacity → b.buffer i ≡ capacity)
      → dequeue capacity b ≡ (record b { state = h + 1 }, none)
  unfolding dequeue
  dequeue-none t h b st lt lh vacant =
      let low : bit_and b.state (2 ^ 32 - 1) ≡ h = rw st (head_part t h lt (omega arith)) in
      let high : bit_and b.state (2 ^ 64 - 2 ^ 32) ≡ t * 2 ^ 32 =
        rw st (tail_part t h lt (omega arith)) in
      let up : add64 b.state 1 ≡ t * 2 ^ 32 + (h + 1) = omega arith in
      let nothing : (ltb h capacity && not (b.buffer h == capacity)) ≡ false =
        elim (Bool-cases (ltb h capacity)) [
          | inl y ↦ rw (y, eq→== (b.buffer h) capacity (vacant h (ground arith))) refl
          | inr n ↦ rw n refl
        ] in
      let state' : (if bit_and b.state (2 ^ 64 - 2 ^ 32) == 0
            then add64 b.state 1
            else bit_and (add64 b.state 1) (2 ^ 32 - 1))
          ≡ h + 1 =
        elim (Bool-cases (t * 2 ^ 32 == 0)) [
          | inl z ↦ rw (high, z, up) (ground arith)
          | inr dirty ↦ rw (high, dirty, up) (head_part t (h + 1) lt lh)
        ] in
      rw (low, nothing, state') refl
