-- ===== src/CasLoop/Alone/Dequeue.antt =====
-- `dequeue` alone.
use native.Mathlib.Nat.{add-mod_right}
use mpmc_queues.Base.{
  ℕ, suc, ◌+◌, ◌%◌, ◌^◌, ◌<◌, ◌≡◌, refl, sym, ap, ◌∙◌, true, false, List, [], ◌∷◌, some, none,
  arith, update, update_ne, update_self, eq_of_mod-eq, eq→==, ℕ_discrete, ne→==,
}
use mpmc_queues.Bit.Msb.{clear_msb-mod}
use mpmc_queues.CasLoop.{
  Ring, Shared, Cell, Pc, step, sub64, signed_lt, deq_head, deq_seq, deq_cas, deq_val, deq_pub,
  deq_size_tail, deq_size_head, dequeued,
}
use mpmc_queues.CasLoop.Inv.{IsRing}
use mpmc_queues.CasLoop.Words.{add64-eq}
use mpmc_queues.CasLoop.Alone.Defs.{solo, solo-suc, Holds, Published-update}

-- The memory with the word `t` in place of the tail, which a `dequeue` reads without its top bit.
abbrev pub with_tail : ℕ → Shared → Shared
with_tail t n = record n { tail = t }

run-head :
    (r : Ring) (m : Shared) (t : ℕ)
    → step r false (with_tail t m) deq_head ≡ (with_tail t m, deq_seq m.head)
unfolding step
run-head r m t = refl

module _ {r : Ring} {m : Shared} (ring : IsRing r) (small : m.head + r.size + r.size < 2 ^ 63) where
  open ring use {slot_lem, two}

  module _ {q : List ℕ} {x : ℕ} (holds : Holds r m (x ∷ q)) where
    open holds use {count, fits, items, vacant}

    -- The cell is ready for the next round.
    abbrev pub released : Shared
    released = record m {
      head = m.head + 1;
      cells = update m.cells (m.head % r.size) (record { val = x; seq = m.head + r.size });
    }

    ready : m.cells (m.head % r.size) ≡ record { val = x; seq = m.head + 1 }
    ready = items.0

    run-seq :
        (t : ℕ) → step r false (with_tail t m) (deq_seq m.head) ≡ (with_tail t m, deq_cas m.head)
    unfolding step
    run-seq t =
        rw (slot_lem, ready, add64-eq m.head 1 (omega arith), eq→== (m.head + 1) (m.head + 1) refl)

    abbrev taken : Shared
    taken = record m { head = m.head + 1 }

    run-cas :
        (t : ℕ)
        → step r false (with_tail t m) (deq_cas m.head) ≡ (with_tail t taken, deq_val m.head)
    unfolding step
    run-cas t = rw (eq→== m.head m.head refl, add64-eq m.head 1 (omega arith))

    run-val :
        (t : ℕ)
        → step r false (with_tail t taken) (deq_val m.head) ≡ (with_tail t taken, deq_pub m.head x)
    unfolding step
    run-val t = rw (slot_lem, ready)

    run-pub :
        (t : ℕ)
        → step r false (with_tail t taken) (deq_pub m.head x)
          ≡ (with_tail t released, dequeued (some x))
    unfolding step
    run-pub t = rw (slot_lem, ready, add64-eq m.head r.size (omega arith))

    pub five :
        (t : ℕ) → solo r 5 (with_tail t m) deq_head ≡ (with_tail t released, dequeued (some x))
    five t =
        solo-suc r 4 _ _ (run-head r m t)
        ∙ solo-suc r 3 _ _ (run-seq t)
        ∙ solo-suc r 2 _ _ (run-cas t)
        ∙ solo-suc r 1 _ _ (run-val t)
        ∙ solo-suc r 0 _ _ (run-pub t)
        ∙ (unfold solo in refl)

    pub Holds-released : Holds r released q
    Holds-released = record {
      count = omega arith;
      fits = omega arith;
      items =
          let n : m.head + 1 ≡ suc m.head = omega arith in
          rw n (
            Published-update r m.cells (suc m.head) q (m.head % r.size) _
              (λ t a b e.
                absurd (omega (arith, eq_of_mod-eq r.size m.head t e (omega arith) (omega arith))))
              items.1);
      vacant = λ t a b. elim (ℕ_discrete t (m.head + r.size)) [
        | yes last ↦
            let wrap : t % r.size ≡ m.head % r.size = rw last (add-mod_right m.head r.size) in
            rw (wrap, update_self m.cells (m.head % r.size)) (sym last)
        | no other ↦
            ap (λ (c : Cell). c.seq)
              (update_ne m.cells (m.head % r.size) (t % r.size) _ (λ e.
                absurd (omega (arith, eq_of_mod-eq r.size m.head t e (omega arith) (omega arith)))))
            ∙ vacant t a (omega arith)
      ];
    }

  module _ (holds : Holds r m []) where
    open holds use {count, vacant}

    unready : (m.cells (m.head % r.size)).seq ≡ m.head
    unready = vacant m.head (omega arith) (omega arith)

    below : signed_lt m.head (m.head + 1) ≡ true
    below = ground arith

    run-seq-empty :
        (t : ℕ) → step r false (with_tail t m) (deq_seq m.head) ≡ (with_tail t m, deq_size_tail)
    unfolding step
    run-seq-empty t = rw (
      slot_lem,
      unready,
      add64-eq m.head 1 (omega arith),
      ne→== m.head (m.head + 1) (omega arith),
      below,
    )

    run-size_tail :
        (t : ℕ)
        → t % 2 ^ 63 ≡ m.tail
        → step r false (with_tail t m) deq_size_tail ≡ (with_tail t m, deq_size_head m.tail)
    unfolding step
    run-size_tail t e = rw (clear_msb-mod 63, e)

    run-size_head :
        (t : ℕ)
        → step r false (with_tail t m) (deq_size_head m.tail) ≡ (with_tail t m, dequeued none)
    unfolding step
    run-size_head t = rw (eq→== (sub64 m.tail m.head) 0 (omega arith))

    pub four :
        (t : ℕ)
        → t % 2 ^ 63 ≡ m.tail
        → solo r 4 (with_tail t m) deq_head ≡ (with_tail t m, dequeued none)
    four t e =
        solo-suc r 3 _ _ (run-head r m t)
        ∙ solo-suc r 2 _ _ (run-seq-empty t)
        ∙ solo-suc r 1 _ _ (run-size_tail t e)
        ∙ solo-suc r 0 _ _ (run-size_head t)
        ∙ (unfold solo in refl)

  -- Let the ring be open, of at least two cells, and between two calls. A `dequeue` that runs alone
  -- returns the oldest item after five accesses and leaves the rest; on an empty ring it returns
  -- false after four and changes nothing.
  pub dequeue_alone :
      ((x : ℕ) (q : List ℕ)
        → Holds r m (x ∷ q)
        → ((solo r 5 m deq_head).1 ≡ dequeued (some x)) × Holds r (solo r 5 m deq_head).0 q)
      × (Holds r m [] → solo r 4 m deq_head ≡ (m, dequeued none))
  dequeue_alone = (
    λ x q h. (ap (λ (s : Shared × Pc). s.1) (five h m.tail), rw (five h m.tail) (Holds-released h)),
    λ h. four h m.tail (omega (arith, h.count)),
  )
