-- ===== src/Hq/Alone.antt =====
-- One thread of `LinkedHQ` by itself, no weak exchange failing.
use mpmc_queues.Base.{
  ℕ, zero, suc, ◌+◌, ◌^◌, ◌≤◌, ◌<◌, ◌≡◌, ◌≢◌, refl, sym, ◌∙◌, arith, true, false, ◌==◌, leb, ltb,
  none, some, update, eq→==, ne→==, lt→ltb, lt→leb, if◌then◌else◌, Bool-cases, inl, inr,
}
use mpmc_queues.Hq.{
  Shared, Pc, enq_add, enq_cas, slow_head, slow_skip, slow_wait, slow_swap, enqueued, dequeued,
  empty, seen, step, reserved, max_patience, help_head, slow_result, add64,
}

unfoldable pub solo : (n size : ℕ) → Shared → Pc → Shared × Pc
solo zero size m p = (m, p)
solo (suc n) size m p = let r = step size false m p in solo n size r.0 r.1

pub solo_add :
    (a b size : ℕ) (m : Shared) (p : Pc)
    → solo (a + b) size m p ≡ solo b size (solo a size m p).0 (solo a size m p).1
unfolding solo
solo_add zero b size m p = let e : 0 + b ≡ b = omega arith in rw e refl
solo_add (suc a) b size m p =
    let e : suc a + b ≡ suc (a + b) = omega arith in
    rw e (solo_add a b size (step size false m p).0 (step size false m p).1)

-- The wait for an item that does not come.
waits :
    (n i size h : ℕ) (m : Shared)
    → m.cells h ≡ empty
    → i + n ≡ max_patience
    → solo (suc n) size m (slow_wait h i) ≡ (m, slow_swap h)
unfolding solo step
waits zero i size h m z e = let over : ltb i max_patience ≡ false = ground arith in rw over refl
waits (suc n) i size h m z e =
    let under : ltb i max_patience ≡ true = lt→ltb i max_patience (omega arith) in
    rw (under, z) (waits n (i + 1) size h m z (omega arith))

abbrev pub impatience : ℕ
impatience = 4 + (suc max_patience + 2)

module _ (size h : ℕ) (m : Shared) (at : m.head ≡ h) (lt : h < size) where
  -- From the first load to the look at the item.
  reads :
      m.tail ≢ h
      → solo 4 size m slow_head ≡ (
        m,
        if m.cells h == seen
            then slow_skip h
            else if m.cells h == empty
            then slow_wait h 0
            else slow_swap h,
      )
  unfolding solo step
  reads more =
      let room : leb size h ≡ false = lt→leb size h lt in
      rw (at, room, eq→== h h refl, ne→== h m.tail (λ e. more (sym e))) refl

  -- The exchange and the help for `head`.
  marks :
      h + 1 < 2 ^ 64
      → solo 2 size m (slow_swap h)
        ≡ (record m { head = h + 1; cells = update m.cells h seen }, slow_result (m.cells h))
  unfolding solo step help_head
  marks small = let up : add64 h 1 ≡ h + 1 = omega arith in rw (at, eq→== h h refl, up) refl

  -- A cell that stays empty is marked and passed.
  pub passes :
      h + 1 < 2 ^ 64
      → m.tail ≢ h
      → m.cells h ≡ empty
      → solo impatience size m slow_head
        ≡ (record m { head = h + 1; cells = update m.cells h seen }, slow_head)
  unfolding slow_result reserved
  passes small more z =
      let waited = waits max_patience 0 size h m z (omega arith) in
      solo_add 4 (suc max_patience + 2) size m slow_head
      ∙ rw (reads more, z)
          (solo_add (suc max_patience) 2 size m (slow_wait h 0)
            ∙ rw waited (marks small ∙ rw z refl))

  -- An item that is there is taken.
  pub takes :
      h + 1 < 2 ^ 64
      → m.tail ≢ h
      → 1 < m.cells h
      → solo (4 + 2) size m slow_head
        ≡ (record m { head = h + 1; cells = update m.cells h seen }, dequeued (some (m.cells h)))
  unfolding slow_result reserved
  takes small more big =
      let a : (m.cells h == seen) ≡ false = ne→== (m.cells h) seen (omega arith) in
      let b : (m.cells h == empty) ≡ false = ne→== (m.cells h) empty (omega arith) in
      let c : leb (m.cells h) 1 ≡ false = lt→leb (m.cells h) 1 big in
      solo_add 4 2 size m slow_head ∙ rw (reads more, a, b) (marks small ∙ rw c refl)

-- `head` has reached `tail` or the end: there is nothing to take.
pub finds_none :
    (size h : ℕ) (m : Shared)
    → m.head ≡ h
    → m.tail ≡ h
    → solo 4 size m slow_head ≡ (m, dequeued none)
unfolding solo step
finds_none size h m at end = elim (Bool-cases (leb size h)) [
  | inl y ↦ rw (at, y) refl
  | inr y ↦ rw (at, y, end, eq→== h h refl) refl
]

-- The accesses of `enqueue`.
module _ (size : ℕ) (m : Shared) (x expected : ℕ) where
  pub gets_ticket :
      m.tail < size
      → m.tail + 1 < 2 ^ 64
      → step size false m (enq_add x expected)
        ≡ (record m { tail = m.tail + 1 }, enq_cas x expected m.tail)
  unfolding step
  gets_ticket lt small =
      let up : add64 m.tail 1 ≡ m.tail + 1 = omega arith in rw (lt→leb size m.tail lt, up) refl

  pub gets_none :
      size ≤ m.tail
      → step size false m (enq_add x expected)
        ≡ (record m { tail = add64 m.tail 1 }, enqueued false)
  unfolding step
  gets_none le = let y : leb size m.tail ≡ true = ground arith in rw y refl

  pub fits :
      (t : ℕ)
      → m.cells t ≡ expected
      → step size false m (enq_cas x expected t)
        ≡ (record m { cells = update m.cells t x }, enqueued true)
  unfolding step
  fits t e = rw (eq→== (m.cells t) expected e) refl

  pub misses :
      (t : ℕ)
      → m.cells t ≢ expected
      → step size false m (enq_cas x expected t) ≡ (m, enq_add x (m.cells t))
  unfolding step
  misses t ne = rw (ne→== (m.cells t) expected ne) refl
