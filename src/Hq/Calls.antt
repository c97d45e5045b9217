-- ===== src/Hq/Calls.antt =====
-- Whole calls of `LinkedHQ` by one thread.
use mpmc_queues.Base.{
  ℕ, suc, ◌+◌, ◌^◌, ◌≤◌, ◌<◌, ◌≡◌, ◌≢◌, refl, ◌∙◌, arith, true, false, ◌==◌, leb, none, some,
  update, ne→==, lt→leb,
}
use mpmc_queues.Hq.{
  Shared, enq_add, deq_next, fast_add, slow_head, enqueued, dequeued, empty, seen, step, reserved,
  add64,
}
use mpmc_queues.Hq.Alone.{solo, takes, finds_none, gets_ticket, gets_none, fits}

module _ (size : ℕ) (m : Shared) where
  goes_slow : (n : ℕ) → m.next ≡ 0 → solo (suc n) size m deq_next ≡ solo n size m slow_head
  unfolding solo step
  goes_slow n z = rw z refl

  goes_fast : (n : ℕ) → m.next ≢ 0 → solo (suc n) size m deq_next ≡ solo n size m fast_add
  unfolding solo step
  goes_fast n nz = rw (ne→== m.next 0 nz) refl

  fast_takes :
      m.head < size
      → m.head + 1 < 2 ^ 64
      → 1 < m.cells m.head
      → solo 3 size m fast_add ≡ (
        record m { head = m.head + 1; cells = update m.cells m.head seen },
        dequeued (some (m.cells m.head)),
      )
  unfolding solo step reserved
  fast_takes lt small big =
      let up : add64 m.head 1 ≡ m.head + 1 = omega arith in
      let b : (m.cells m.head == empty) ≡ false = ne→== (m.cells m.head) empty (omega arith) in
      rw (up, lt→leb size m.head lt, b, lt→leb (m.cells m.head) 1 big) refl

  fast_none :
      size ≤ m.head → solo 1 size m fast_add ≡ (record m { head = add64 m.head 1 }, dequeued none)
  unfolding solo step
  fast_none le = let y : leb size m.head ≡ true = ground arith in rw y refl

  puts :
      (x : ℕ)
      → m.tail < size
      → m.tail + 1 < 2 ^ 64
      → m.cells m.tail ≡ empty
      → solo 2 size m (enq_add x empty)
        ≡ (record m { tail = m.tail + 1; cells = update m.cells m.tail x }, enqueued true)
  unfolding solo
  puts x lt small z =
      rw
        (
          gets_ticket size m x empty lt small,
          fits size (record m { tail = m.tail + 1 }) x empty m.tail z,
        )
        refl

  refuses :
      (x : ℕ)
      → size ≤ m.tail
      → solo 1 size m (enq_add x empty) ≡ (record m { tail = add64 m.tail 1 }, enqueued false)
  unfolding solo
  refuses x le = rw (gets_none size m x empty le) refl

  -- What a call by one thread does, the counters being below `2 ^ 64`. An enqueue fills the next free
  -- cell, or is refused once the tickets are used up. With no next segment a dequeue takes the item
  -- at `head`, or finds the segment empty where `head` is `tail`. With a next segment it takes the
  -- item at `head` too, and returns none past the last cell.
  pub hq_alone :
      (x : ℕ)
      → m.tail + 1 < 2 ^ 64
      → m.head + 1 < 2 ^ 64
      → (m.tail < size
          → m.cells m.tail ≡ empty
          → solo 2 size m (enq_add x empty)
            ≡ (record m { tail = m.tail + 1; cells = update m.cells m.tail x }, enqueued true))
        × (size ≤ m.tail
            → solo 1 size m (enq_add x empty)
              ≡ (record m { tail = add64 m.tail 1 }, enqueued false))
        × (m.next ≡ 0
            → m.head < size
            → m.tail ≢ m.head
            → 1 < m.cells m.head
            → solo 7 size m deq_next ≡ (
              record m { head = m.head + 1; cells = update m.cells m.head seen },
              dequeued (some (m.cells m.head)),
            ))
        × (m.next ≡ 0 → m.tail ≡ m.head → solo 5 size m deq_next ≡ (m, dequeued none))
        × (m.next ≢ 0
            → m.head < size
            → 1 < m.cells m.head
            → solo 4 size m deq_next ≡ (
              record m { head = m.head + 1; cells = update m.cells m.head seen },
              dequeued (some (m.cells m.head)),
            ))
        × (m.next ≢ 0
            → size ≤ m.head
            → solo 2 size m deq_next ≡ (record m { head = add64 m.head 1 }, dequeued none))
  hq_alone x small_tail small_head = (
    λ lt z. puts x lt small_tail z,
    refuses x,
    λ z lt more big. goes_slow 6 z ∙ takes size m.head m refl lt small_head more big,
    λ z end. goes_slow 4 z ∙ finds_none size m.head m refl end,
    λ nz lt big. goes_fast 3 nz ∙ fast_takes lt small_head big,
    λ nz le. goes_fast 1 nz ∙ fast_none le,
  )
