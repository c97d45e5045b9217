-- ===== src/Faa/Alone.antt =====
-- One thread of `LinkedFAAArray` by itself.
use mpmc_queues.Base.{
  ℕ, zero, suc, ◌+◌, ◌*◌, ◌^◌, ◌≤◌, ◌<◌, ◌≡◌, ◌≢◌, refl, ap, ◌∙◌, arith, true, false, leb, some,
  update, eq→==, ne→==, lt→leb,
}
use mpmc_queues.Faa.{
  Shared, Pc, enq_add, enq_cas, deq_add, deq_look, deq_swap, enqueued, dequeued, empty, seen, add64,
  step, open_segment,
}

-- `n` accesses in a row.
unfoldable pub solo : (n size : ℕ) → Shared → Pc → Shared × Pc
solo zero size m p = (m, p)
solo (suc n) size m p = let (m', p') = step size m p in solo n size m' p'

solo-suc :
    (n size : ℕ) (m : Shared) (p : Pc) (m' : Shared) (p' : Pc)
    → step size m p ≡ (m', p')
    → solo (suc n) size m p ≡ solo n size m' p'
unfolding solo
solo-suc n size m p m' p' e = ap (λ (r : Shared × Pc). solo n size r.0 r.1) e

module _ (size : ℕ) (m : Shared) where
  run-take :
      m.tail < size
      → m.tail + 1 < 2 ^ 64
      → (x : ℕ) → step size m (enq_add x) ≡ (record m { tail = m.tail + 1 }, enq_cas x m.tail)
  unfolding step
  run-take lt small x =
      let up : add64 m.tail 1 ≡ m.tail + 1 = omega arith in rw (lt→leb size m.tail lt, up) refl

  run-full :
      size ≤ m.tail
      → (x : ℕ) → step size m (enq_add x) ≡ (record m { tail = add64 m.tail 1 }, enqueued false)
  unfolding step
  run-full le x = let y : leb size m.tail ≡ true = ground arith in rw y refl

  run-fill :
      (x t : ℕ)
      → m.cells t ≡ empty
      → step size m (enq_cas x t) ≡ (record m { cells = update m.cells t x }, enqueued true)
  unfolding step
  run-fill x t e = rw (eq→== (m.cells t) empty e) refl

  run-miss : (x t : ℕ) → m.cells t ≢ empty → step size m (enq_cas x t) ≡ (m, enq_add x)
  unfolding step
  run-miss x t ne = rw (ne→== (m.cells t) empty ne) refl

  run-head :
      m.head < size
      → m.head + 1 < 2 ^ 64
      → step size m deq_add ≡ (record m { head = m.head + 1 }, deq_look m.head)
  unfolding step
  run-head lt small =
      let up : add64 m.head 1 ≡ m.head + 1 = omega arith in rw (lt→leb size m.head lt, up) refl

  run-look : (h : ℕ) → m.cells h ≢ empty → step size m (deq_look h) ≡ (m, deq_swap h)
  unfolding step
  run-look h ne = rw (ne→== (m.cells h) empty ne) refl

  run-swap :
      (h : ℕ)
      → m.cells h ≢ empty
      → step size m (deq_swap h)
        ≡ (record m { cells = update m.cells h seen }, dequeued (some (m.cells h)))
  unfolding step
  run-swap h ne = rw (ne→== (m.cells h) empty ne) refl

-- An `enqueue` by itself returns true after two accesses when the cell of the next ticket is empty,
-- and false after one when the tickets are used up. A `dequeue` by itself returns, after three
-- accesses, the item in the cell of its next ticket, and marks the cell.
pub array_alone :
    (size : ℕ) (m : Shared) (x : ℕ)
    → size < 2 ^ 63
    → (m.tail < size
        → m.cells m.tail ≡ empty
        → solo 2 size m (enq_add x)
          ≡ (record m { tail = m.tail + 1; cells = update m.cells m.tail x }, enqueued true))
      × (size ≤ m.tail
          → solo 1 size m (enq_add x) ≡ (record m { tail = add64 m.tail 1 }, enqueued false))
      × (m.head < size
          → m.cells m.head ≢ empty
          → solo 3 size m deq_add ≡ (
            record m { head = m.head + 1; cells = update m.cells m.head seen },
            dequeued (some (m.cells m.head)),
          ))
array_alone size m x small = (
  λ lt vacant.
      let m1 : Shared = record m { tail = m.tail + 1 } in
      solo-suc 1 size m _ _ _ (run-take size m lt (omega arith) x)
      ∙ solo-suc 0 size m1 _ _ _ (run-fill size m1 x m.tail vacant)
      ∙ (unfold solo in refl),
  λ le. solo-suc 0 size m _ _ _ (run-full size m le x) ∙ (unfold solo in refl),
  λ lt full.
      let m1 : Shared = record m { head = m.head + 1 } in
      solo-suc 2 size m _ _ _ (run-head size m lt (omega arith))
      ∙ solo-suc 1 size m1 _ _ _ (run-look size m1 m.head full)
      ∙ solo-suc 0 size m1 _ _ _ (run-swap size m1 m.head full)
      ∙ (unfold solo in refl),
)

-- With `rounds` cells left from the tail on, none of them empty.
refuses :
    (size rounds x : ℕ) (m : Shared)
    → size < 2 ^ 63
    → m.tail + rounds ≡ size
    → ((t : ℕ) → t < size → m.cells t ≢ empty)
    → (solo (rounds * 2 + 1) size m (enq_add x)).1 ≡ enqueued false
refuses size zero x m small sum used =
    let last : solo 1 size m (enq_add x) ≡ (record m { tail = add64 m.tail 1 }, enqueued false) =
      solo-suc 0 size m _ _ _ (run-full size m (omega arith) x) ∙ (unfold solo in refl) in
    ap (λ (r : Shared × Pc). r.1) last
refuses size (suc n) x m small sum used =
    let m1 : Shared = record m { tail = m.tail + 1 } in
    let two : suc n * 2 + 1 ≡ suc (suc (n * 2 + 1)) = omega arith in
    let e : solo (suc n * 2 + 1) size m (enq_add x) ≡ solo (n * 2 + 1) size m1 (enq_add x) =
      rw two (
        solo-suc (suc (n * 2 + 1)) size m _ _ _ (run-take size m (omega arith) (omega arith) x)
        ∙ solo-suc (n * 2 + 1) size m1 _ _ _
            (run-miss size m1 x m.tail (used m.tail (omega arith)))) in
    ap (λ (r : Shared × Pc). r.1) e ∙ refuses size n x m1 small (omega arith) used

-- `open` resets `head` and `tail` and leaves the cells: when all of them have been used, an `enqueue`
-- after it returns false.
pub reopened_refuses :
    (size x : ℕ) (m : Shared)
    → size < 2 ^ 63
    → ((t : ℕ) → t < size → m.cells t ≢ empty)
    → (solo (size * 2 + 1) size (open_segment m) (enq_add x)).1 ≡ enqueued false
unfolding open_segment
reopened_refuses size x m small used =
    refuses size size x (record m { head = 0; tail = 0 }) small (omega arith) used
