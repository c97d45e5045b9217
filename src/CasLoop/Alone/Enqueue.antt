-- ===== src/CasLoop/Alone/Enqueue.antt =====
-- `enqueue` alone.
use mpmc_queues.Base.{
  ℕ, zero, suc, ◌+◌, ◌%◌, ◌^◌, ◌<◌, ◌≡◌, refl, ap, ◌∙◌, Bool, true, false, ◌&&◌, List, [], ◌∷◌,
  ◌++◌, arith, update, update_ne, update_self, length, length-append, eq_of_mod-eq, if◌then◌else◌,
  inl, inr, ◌⊎◌,
}
use native.Mathlib.Nat.{add-mod_right}
use mpmc_queues.CasLoop.{
  Ring, Shared, Cell, Pc, step, enq_tail, enq_seq, enq_close, enqueued, is_closed,
}
use mpmc_queues.CasLoop.Inv.{IsRing}
use mpmc_queues.CasLoop.Words.{is_closed-low, close_tail_lem}
use mpmc_queues.CasLoop.Alone.Store
use mpmc_queues.CasLoop.Alone.Defs.{
  solo, Published-seq, solo-suc, Holds, Published-update, Published-append,
}

module _ {r : Ring} {m : Shared} {q : List ℕ} (ring : IsRing r) (holds : Holds r m q)
    (small : m.head + r.size + r.size < 2 ^ 63) (x : ℕ) where
  open ring use {slot_lem, two}
  open holds use {count, fits, items, vacant}

  abbrev pub stored : Shared
  stored = record m {
    tail = m.tail + 1;
    cells = update m.cells (m.tail % r.size) (record { val = x; seq = m.tail + 1 });
  }

  opened : r.linked && is_closed m.tail ≡ false
  opened = ground (arith, is_closed-low m.tail)

  run-tail : step r false m (enq_tail x) ≡ (m, enq_seq x m.tail)
  unfolding step
  run-tail = rw opened

  pub Holds-stored : length q < r.size → Holds r stored (q ++ (x ∷ []))
  Holds-stored lt = record {
    count = omega (arith, length-append q (x ∷ []));
    fits = omega (arith, length-append q (x ∷ []));
    items =
        Published-append r stored.cells m.head m.tail q x count
          (Published-update r m.cells m.head q (m.tail % r.size) _
            (λ t a b e.
              absurd (omega (arith, eq_of_mod-eq r.size m.tail t e (omega arith) (omega arith))))
            items)
          (update_self m.cells (m.tail % r.size) _);
    vacant = λ t a b.
        ap (λ (c : Cell). c.seq)
          (update_ne m.cells (m.tail % r.size) (t % r.size) _ (λ e.
            absurd (omega (arith, eq_of_mod-eq r.size m.tail t e (omega arith) (omega arith)))))
        ∙ vacant t (omega arith) b;
  }

  pub stores : length q < r.size → solo r 5 m (enq_tail x) ≡ (stored, enqueued true)
  stores lt =
      Store.five r m x (m.tail % r.size) (slot_lem m.tail)
        (vacant m.tail (omega arith) (omega arith)) (omega arith)

  module _ (full : length q ≡ r.size) where
    -- The cell of the next ticket still holds the oldest item.
    busy : (m.cells (m.tail % r.size)).seq < m.tail
    busy =
        let wrap : m.tail % r.size ≡ m.head % r.size =
          rw (count, full) (add-mod_right m.head r.size) in
        let s : (m.cells (m.head % r.size)).seq ≡ m.head + 1 =
          Published-seq r m.cells m.head q (omega arith) items in
        rw (wrap, s) (omega arith)

    abbrev next-full : Bool → Pc
    next-full b = if b then enq_close x else enq_tail x

    run-full : step r false m (enq_seq x m.tail) ≡ (m, next-full r.linked)
    unfolding step
    run-full = rw slot_lem (ground (arith, busy))

    run-close : step r false m (enq_close x) ≡ (record m { tail = m.tail + 2 ^ 63 }, enqueued false)
    unfolding step
    run-close =
        let e : m.tail % 2 ^ 63 ≡ m.tail = omega arith in rw (close_tail_lem m (omega arith), e)

    pub three :
        r.linked ≡ true
        → solo r 3 m (enq_tail x) ≡ (record m { tail = m.tail + 2 ^ 63 }, enqueued false)
    three l =
        solo-suc r 2 _ _ run-tail
        ∙ solo-suc r 1 _ _ (run-full ∙ ap (λ (b : Bool). (m, next-full b)) l)
        ∙ solo-suc r 0 _ _ run-close
        ∙ (unfold solo in refl)

    -- Two accesses that change nothing.
    round :
        r.linked ≡ false → (n : ℕ) → solo r (suc (suc n)) m (enq_tail x) ≡ solo r n m (enq_tail x)
    round l n =
        solo-suc r (suc n) _ _ run-tail
        ∙ solo-suc r n _ _ (run-full ∙ ap (λ (b : Bool). (m, next-full b)) l)

    spins :
        r.linked ≡ false
        → (n : ℕ)
        → ((solo r n m (enq_tail x)).1 ≡ enq_tail x)
          ⊎ ((solo r n m (enq_tail x)).1 ≡ enq_seq x m.tail)
    spins l zero = unfold solo in inl refl
    spins l (suc zero) = inr (unfold solo in ap (λ (s : Shared × Pc). s.1) run-tail)
    spins l (suc (suc n)) = rw (round l n) (spins l n)

module _ {r : Ring} {m : Shared} {q : List ℕ} (ring : IsRing r) (holds : Holds r m q)
    (small : m.head + r.size + r.size < 2 ^ 63) (x : ℕ) where
  -- Let the ring be open, of at least two cells, between two calls, with `q` in it. An `enqueue`
  -- that runs alone returns true after five accesses if there is room, and leaves `q` with the item
  -- behind it. On a full ring of the linked form it returns false after three, having closed the
  -- ring and changed nothing else.
  pub enqueue_alone :
      (length q < r.size
        → (solo r 5 m (enq_tail x)).1 ≡ enqueued true
          × Holds r (solo r 5 m (enq_tail x)).0 (q ++ (x ∷ [])))
      × (length q ≡ r.size
          → r.linked ≡ true
          → solo r 3 m (enq_tail x) ≡ (record m { tail = m.tail + 2 ^ 63 }, enqueued false))
  enqueue_alone = (
    λ lt.
        let e = stores ring holds small x lt in
        (ap (λ (s : Shared × Pc). s.1) e, rw e (Holds-stored ring holds small x lt)),
    λ full l. three ring holds small x full l,
  )

  -- On a full ring of the plain form an `enqueue` that runs alone never returns: after any number
  -- of accesses it stands at one of the two loads of its loop.
  pub enqueue_spins_when_full :
      length q ≡ r.size
      → r.linked ≡ false
      → (n : ℕ)
      → ((solo r n m (enq_tail x)).1 ≡ enq_tail x)
        ⊎ ((solo r n m (enq_tail x)).1 ≡ enq_seq x m.tail)
  enqueue_spins_when_full full l = spins ring holds small x full l
