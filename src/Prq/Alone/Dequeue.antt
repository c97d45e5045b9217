-- ===== src/Prq/Alone/Dequeue.antt =====
-- A `dequeue` of `PRQueue` alone.
use native.Mathlib.Nat.{add-mod_right}
use mpmc_queues.Base.{
  ℕ, suc, ◌+◌, ◌%◌, ◌^◌, ◌≤◌, ◌<◌, ◌≡◌, ◌≢◌, refl, List, [], ◌∷◌, some, none, Option, arith, update,
  update_ne, update_self, eq_of_mod-eq, ℕ_discrete,
}
use mpmc_queues.CasLoop.{Ring, Cell}
use mpmc_queues.CasLoop.Inv.{IsRing}
use mpmc_queues.Prq.{Shared, deq_add, dequeued}
use mpmc_queues.Prq.Alone.Defs.{solo, Holds, Stored-update}
use mpmc_queues.Prq.Alone.Take

module _ (r : Ring) (m : Shared) (tid : Option ℕ) (ring : IsRing r)
    (small : m.head + r.size + r.size + 1 < 2 ^ 63) where
  open ring use {slot_lem, two}

  -- The cell of the head is ready for its next ticket.
  abbrev cleared : ℕ → Cell
  cleared = update m.cells (m.head % r.size) (record { val = 0; seq = m.head + r.size })

  apart : (t : ℕ) → m.head + 1 ≤ t → t < m.head + r.size → m.head % r.size ≢ t % r.size
  apart t a b z = absurd (omega (arith, eq_of_mod-eq r.size m.head t z (omega arith) (omega arith)))

  turns :
      (t : ℕ)
      → m.head + 1 ≤ t
      → t < m.head + 1 + r.size
      → (t < m.head + r.size → ((m.cells (t % r.size)).val ≡ 0) × ((m.cells (t % r.size)).seq ≤ t))
      → ((cleared (t % r.size)).val ≡ 0) × ((cleared (t % r.size)).seq ≤ t)
  turns t a b old = elim (ℕ_discrete t (m.head + r.size)) [
    | yes last ↦
        let wrap : t % r.size ≡ m.head % r.size = rw last (add-mod_right m.head r.size) in
        rw (wrap, update_self m.cells (m.head % r.size)) (refl, omega arith)
    | no other ↦
        rw
          (update_ne m.cells (m.head % r.size) (t % r.size)
            (record { val = 0; seq = m.head + r.size }) (apart t a (omega arith)))
          (old (omega arith))
  ]

  module _ (x : ℕ) (q : List ℕ) (h : Holds r m (x ∷ q)) where
    open h use {count, fits, items, vacant}

    Holds-taken : Holds r (record m { head = m.head + 1; cells = cleared }) q
    Holds-taken = record {
      count = omega arith;
      fits = omega arith;
      items =
          let n : m.head + 1 ≡ suc m.head = omega arith in
          rw n (
            Stored-update r m.cells (suc m.head) q (m.head % r.size)
              (record { val = 0; seq = m.head + r.size })
              (λ t a b. apart t (omega arith) (omega arith)) items.2);
      vacant = λ t a b. turns t (omega arith) b (λ lt. vacant t a lt);
    }

    taking : let s = solo r 5 (m, tid, deq_add) in (s.2 ≡ dequeued (some x)) × Holds r s.0 q
    taking =
        rw (Take.five r m tid (m.head % r.size) (slot_lem m.head) (omega arith) x items.0 items.1)
          (refl, Holds-taken)

  module _ (h : Holds r m []) where
    open h use {count, vacant}

    Holds-fixed : Holds r (record m { head = m.head + 1; tail = m.head + 1; cells = cleared }) []
    Holds-fixed = record {
      count = omega arith;
      fits = omega arith;
      items = tt;
      vacant = λ t a b. turns t a b (λ lt. vacant t (omega arith) lt);
    }

    missing :
        let s = solo r 10 (m, tid, deq_add) in
        (s.2 ≡ dequeued none) × Holds r s.0 [] × (s.0.head ≡ m.head + 1)
    missing =
        let (free, old) = vacant m.head (omega arith) (omega arith) in
        rw
          (Take.ten r m tid (m.head % r.size) (slot_lem m.head) (omega arith) (omega arith) free
            old)
          (refl, Holds-fixed, refl)

  -- Let the ring be open, of at least two cells, none of them unsafe, between two calls, and let its tickets be below
  -- 2 ^ 63. A `dequeue` that runs alone returns the oldest item after five accesses and leaves the rest; on an
  -- empty ring it returns false after ten, and the ring stays open and empty, with one ticket used up.
  pub prq_dequeue_alone :
      ((x : ℕ) (q : List ℕ)
        → Holds r m (x ∷ q)
        → let s = solo r 5 (m, tid, deq_add) in (s.2 ≡ dequeued (some x)) × Holds r s.0 q)
      × (Holds r m []
          → let s = solo r 10 (m, tid, deq_add) in
            (s.2 ≡ dequeued none) × Holds r s.0 [] × (s.0.head ≡ m.head + 1))
  prq_dequeue_alone = (taking, missing)
