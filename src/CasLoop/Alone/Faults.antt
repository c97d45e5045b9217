-- ===== src/CasLoop/Alone/Faults.antt =====
-- Two faults of `CASLoopQueue`: a ring of one cell, and the constructor with an item.
use mathlib.Core.Option.{some-injective}
use mpmc_queues.Base.{
  ℕ, zero, suc, ◌+◌, ◌%◌, ◌^◌, ◌≤◌, ◌<◌, ◌≡◌, ◌≢◌, ◌⊎◌, inl, inr, refl, sym, ap, ◌∙◌, Bool, true,
  false, Option, some, arith, update, ne→==,
}
use mpmc_queues.CasLoop.{
  Ring, Shared, Cell, Pc, step, slot, add64, sub64, deq_size_head, dequeued, enq_tail, deq_head,
  deq_seq, deq_size_tail, enqueued, construct_with, construct, init_slots, blank, make_ring,
  real_size,
}
use mpmc_queues.Bit.Msb.{clear_msb-mod}
use mpmc_queues.CasLoop.Inv.{IsRing, make_ring-IsRing, init_cells_in}
use mpmc_queues.CasLoop.Words.{add64-eq}
use mpmc_queues.CasLoop.Alone.Store
use mpmc_queues.CasLoop.Alone.Defs.{solo, solo-suc}

run-load : (r : Ring) (m : Shared) → step r false m deq_head ≡ (m, deq_seq m.head)
unfolding step
run-load r m = refl

-- A head whose cell shows a number beyond it: the two loads of `dequeue` repeat for ever.
module _ (r : Ring) (m : Shared) (small : m.head + 1 < 2 ^ 63)
    (ahead : m.head + 1 < (m.cells (slot r m.head)).seq)
    (word : (m.cells (slot r m.head)).seq < 2 ^ 63) where
  run-ahead : step r false m (deq_seq m.head) ≡ (m, deq_head)
  unfolding step
  run-ahead = rw (add64-eq m.head 1 (omega arith)) (ground arith)

  pub dequeue_spins :
      (n : ℕ) → ((solo r n m deq_head).1 ≡ deq_head) ⊎ ((solo r n m deq_head).1 ≡ deq_seq m.head)
  dequeue_spins zero = unfold solo in inl refl
  dequeue_spins (suc zero) = unfold solo in inr (ap (λ (s : Shared × Pc). s.1) (run-load r m))
  dequeue_spins (suc (suc n)) =
      rw (solo-suc r (suc n) m deq_head (run-load r m) ∙ solo-suc r n m (deq_seq m.head) run-ahead)
        (dequeue_spins n)

-- A head whose cell is not published although a ticket is out: `size()` is not 0, and the four loads
-- of `dequeue` repeat for ever.
module _ (r : Ring) (m : Shared) (small : m.tail < 2 ^ 63) (out : m.head < m.tail)
    (behind : (m.cells (slot r m.head)).seq ≡ m.head) where
  run-behind : step r false m (deq_seq m.head) ≡ (m, deq_size_tail)
  unfolding step
  run-behind = rw (behind, add64-eq m.head 1 (omega arith)) (ground arith)

  run-size : step r false m deq_size_tail ≡ (m, deq_size_head m.tail)
  unfolding step
  run-size = let e : m.tail % 2 ^ 63 ≡ m.tail = omega arith in rw (clear_msb-mod 63, e)

  run-retry : step r false m (deq_size_head m.tail) ≡ (m, deq_head)
  unfolding step
  run-retry = rw (ne→== (sub64 m.tail m.head) 0 (omega arith))

  pub never_dequeued : (n : ℕ) (v : Option ℕ) → (solo r n m deq_head).1 ≢ dequeued v
  never_dequeued zero v e = unfold solo in cc
  never_dequeued (suc zero) v e = unfold solo step in cc
  never_dequeued (suc (suc zero)) v e =
      let two : solo r 2 m deq_head ≡ (m, deq_size_tail) =
        solo-suc r 1 m deq_head (run-load r m)
        ∙ solo-suc r 0 m (deq_seq m.head) run-behind
        ∙ (unfold solo in refl) in
      cc (ap (λ (s : Shared × Pc). s.1) two)
  never_dequeued (suc (suc (suc zero))) v e =
      let three : solo r 3 m deq_head ≡ (m, deq_size_head m.tail) =
        solo-suc r 2 m deq_head (run-load r m)
        ∙ solo-suc r 1 m (deq_seq m.head) run-behind
        ∙ solo-suc r 0 m deq_size_tail run-size
        ∙ (unfold solo in refl) in
      cc (ap (λ (s : Shared × Pc). s.1) three)
  never_dequeued (suc (suc (suc (suc n)))) v e =
      let four : solo r (suc (suc (suc (suc n)))) m deq_head ≡ solo r n m deq_head =
        solo-suc r (suc (suc (suc n))) m deq_head (run-load r m)
        ∙ solo-suc r (suc (suc n)) m (deq_seq m.head) run-behind
        ∙ solo-suc r (suc n) m deq_size_tail run-size
        ∙ solo-suc r n m (deq_size_head m.tail) run-retry in
      never_dequeued n v (ap (λ (s : Shared × Pc). s.1) (sym four) ∙ e)

-- A ring of one cell, empty, with the ticket `m.tail` next.
pub record OneCell (r : Ring) (m : Shared) : Type 0 where
  pub single : (t : ℕ) → slot r t ≡ 0
  pub next : (m.cells 0).seq ≡ m.tail
  pub empty : m.head ≡ m.tail

module _ (r : Ring) (m : Shared) (one : OneCell r m) (small : m.tail + 3 < 2 ^ 63) (x y : ℕ) where
  open one use {single, next, empty}

  once : Shared
  once = Store.stored r m x 0 (single m.tail) next (omega arith)

  again : Shared
  unfolding once
  again = Store.stored r once y 0 (single (m.tail + 1)) refl (omega arith)

  first : solo r 5 m (enq_tail x) ≡ (once, enqueued true)
  unfolding once
  first = Store.five r m x 0 (single m.tail) next (omega arith)

  second : solo r 5 once (enq_tail y) ≡ (again, enqueued true)
  unfolding again
  second = Store.five r once y 0 (single (m.tail + 1)) refl (omega arith)

  spin :
      (n : ℕ)
      → ((solo r n again deq_head).1 ≡ deq_head) ⊎ ((solo r n again deq_head).1 ≡ deq_seq m.head)
  unfolding again once
  spin =
      let s : (again.cells (slot r m.head)).seq ≡ m.tail + 1 + 1 = rw (single m.head) refl in
      dequeue_spins r again (omega arith) (omega arith) (omega arith)

  -- On an empty ring of one cell two `enqueue`s in a row return true, and a `dequeue` after them never
  -- returns.
  pub one_cell_loses :
      ((solo r 5 m (enq_tail x)).1 ≡ enqueued true)
      × ((solo r 5 (solo r 5 m (enq_tail x)).0 (enq_tail y)).1 ≡ enqueued true)
      × ((n : ℕ) (v : Option ℕ)
          → (solo r n (solo r 5 (solo r 5 m (enq_tail x)).0 (enq_tail y)).0 deq_head).1
            ≢ dequeued v)
  unfolding again
  one_cell_loses = (
    ap (λ (s : Shared × Pc). s.1) first,
    rw first (ap (λ (s : Shared × Pc). s.1) second),
    rw (first, second) λ n v e. elim (spin n) [ inl a ↦ cc | inr b ↦ cc ],
  )

module _ (linked : Bool) (item size start : ℕ) (two : 2 ≤ size) (fits : size ≤ 2 ^ 63)
    (small : start + 1 < 2 ^ 63) (off : start % size ≢ 0) where
  abbrev ring : Ring
  ring = make_ring false linked size

  abbrev seeded : Shared
  seeded =
      let m = init_slots ring start in
      record m {
        cells = update m.cells (slot ring 0) (record { val = item; seq = add64 start 1 });
        tail = add64 m.tail 1;
      }

  constructed : construct false linked size start ≡ some (ring, init_slots ring start)
  unfolding construct make_ring real_size
  constructed = rw (ne→== size 0 (omega arith))

  made : construct_with false linked item size start ≡ some (ring, seeded)
  unfolding construct_with
  made = rw (constructed, construct_with)

  is_ring : IsRing ring
  is_ring =
      make_ring-IsRing false linked size (omega arith) fits (unfold make_ring real_size in two)

  first_cell : slot ring 0 ≡ 0
  unfolding slot make_ring real_size
  first_cell = omega arith

  start_cell : slot ring start ≡ start % size
  unfolding slot make_ring real_size
  start_cell = refl

  behind : (seeded.cells (slot ring start)).seq ≡ start
  unfolding init_slots make_ring real_size
  behind =
      rw (first_cell, start_cell, ne→== 0 (start % size) (λ e. off (sym e)))
        (ap (λ (c : Cell). c.seq)
          (init_cells_in ring is_ring size start start blank (omega arith) (omega arith)
            (omega arith)))

  never : (n : ℕ) (v : Option ℕ) → (solo ring n seeded deq_head).1 ≢ dequeued v
  unfolding init_slots
  never = never_dequeued ring seeded (omega arith) (omega arith) behind

-- Let the ring have two cells or more and no option `Pow2Size`, and be made by the constructor with an
-- item. Unless the start ticket is a multiple of the size, no `dequeue` that runs alone ever returns.
pub construct_with_loses :
    (linked : Bool) (item size start : ℕ) {r : Ring} {m : Shared}
    → 2 ≤ size
    → size ≤ 2 ^ 63
    → start + 1 < 2 ^ 63
    → start % size ≢ 0
    → construct_with false linked item size start ≡ some (r, m)
    → (n : ℕ) (v : Option ℕ) → (solo r n m deq_head).1 ≢ dequeued v
unfolding construct_with
construct_with_loses linked item size start {r} {m} two fits small off e n v =
    let at : some (
      ring linked item size start two fits small off,
      seeded linked item size start two fits small off,
    )
        ≡ some (r, m) =
      sym (made linked item size start two fits small off) ∙ e in
    let pair = some-injective _ _ at in
    rw (← ap (λ (s : Ring × Shared). s.0) pair, ← ap (λ (s : Ring × Shared). s.1) pair)
      (never linked item size start two fits small off n v)
