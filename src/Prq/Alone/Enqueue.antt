-- ===== src/Prq/Alone/Enqueue.antt =====
-- An `enqueue` of `PRQueue` alone.
use native.Mathlib.Nat.{add-mod_right}
use mpmc_queues.Base.{
  ℕ, ◌+◌, ◌%◌, ◌^◌, ◌≤◌, ◌<◌, ◌≡◌, ◌≢◌, refl, sym, ap, ◌∙◌, true, false, List, [], ◌∷◌, ◌++◌, some,
  Option, arith, update, update_ne, update_self, eq_of_mod-eq, length, length-append,
}
use mpmc_queues.CasLoop.{Ring, Cell}
use mpmc_queues.CasLoop.Inv.{IsRing}
use mpmc_queues.Prq.{Shared, enq_add, enqueued, is_closed, close_tail}
use mpmc_queues.Prq.Alone.Defs.{
  HasTag, tag, rounds, State, solo, Holds, IsItem, Stored, Stored-update, Stored-append,
}
use mpmc_queues.Prq.Alone.Store.{stored, closed_lem, tag_pos, solo-rounds, won}
use mpmc_queues.Prq.Alone.Store

module _ {r : Ring} {m : Shared} {q : List ℕ} (ring : IsRing r) (holds : Holds r m q)
    (small : m.head + r.size + r.size + 1 < 2 ^ 63) where
  open ring use {slot_lem, two}
  open holds use {count, fits, items, vacant}

  module _ (x : ℕ) (item : IsItem x) (tid : Option ℕ) (tagged : HasTag tid) where
    module _ (room : length q < r.size) where
      abbrev after : Shared
      after =
          stored r (won tid m) x m.tail (m.tail % r.size) (slot_lem m.tail) (omega arith)
            (tag tid m) (tag_pos tid m tagged) (vacant m.tail (omega arith) (omega arith)).0
            (vacant m.tail (omega arith) (omega arith)).1

      puts : solo r (rounds tid 5) (m, tid, enq_add x) ≡ (after, some (tag tid m), enqueued true)
      puts =
          solo-rounds r m x (omega arith) tid 5
          ∙ Store.five r (won tid m) x m.tail (m.tail % r.size) (slot_lem m.tail) (omega arith)
              (tag tid m) (tag_pos tid m tagged) (vacant m.tail (omega arith) (omega arith)).0
              (vacant m.tail (omega arith) (omega arith)).1

      apart : (t : ℕ) → m.head ≤ t → t < m.head + r.size → t ≢ m.tail → m.tail % r.size ≢ t % r.size
      apart t a b ne e = ne (sym (eq_of_mod-eq r.size m.tail t e (omega arith) (omega arith)))

      Holds-after : Holds r after (q ++ (x ∷ []))
      Holds-after = record {
        count = omega (arith, length-append q (x ∷ []), count);
        fits = omega (arith, length-append q (x ∷ []), room);
        items =
            Stored-append r
              (update m.cells (m.tail % r.size) (record { val = x; seq = m.tail + r.size })) m.head
              m.tail q x count
              (Stored-update r m.cells m.head q (m.tail % r.size)
                (record { val = x; seq = m.tail + r.size })
                (λ t a b. apart t a (omega arith) (λ e. absurd (omega arith))) items)
              item
              (update_self m.cells (m.tail % r.size) (record { val = x; seq = m.tail + r.size }));
        vacant = λ t a b.
            let old = vacant t (omega arith) b in
            rw
              (update_ne m.cells (m.tail % r.size) (t % r.size)
                (record { val = x; seq = m.tail + r.size })
                (apart t (omega arith) b (λ e. absurd (omega arith))))
              old;
      }

    module _ (full : length q ≡ r.size) (linked : r.linked ≡ true) where
      refuses :
          (y : ℕ) (l : List ℕ)
          → Stored r m.cells m.head (y ∷ l)
          → solo r (rounds tid 4) (m, tid, enq_add x)
            ≡ (close_tail (won tid m), some (tag tid m), enqueued false)
      refuses y l (k, e, _) =
          let last : m.tail ≡ m.head + r.size = omega arith in
          let wrap : m.tail % r.size ≡ m.head % r.size = rw last (add-mod_right m.head r.size) in
          solo-rounds r m x (omega arith) tid 4
          ∙ Store.four r (won tid m) x m.tail (m.tail % r.size) (slot_lem m.tail) (omega arith)
              (tag tid m) y (rw wrap (ap (λ (c : Cell). c.val) e)) k.0 linked last

    refused :
        (l : List ℕ)
        → length l ≡ r.size
        → Stored r m.cells m.head l
        → length q ≡ r.size
        → r.linked ≡ true
        → let s = solo r (rounds tid 4) (m, tid, enq_add x) in
          (s.2 ≡ enqueued false)
          × (is_closed s.0 ≡ true)
          × (s.0.cells ≡ m.cells)
          × (s.0.head ≡ m.head)
    unfolding close_tail
    refused [] e st full linked = absurd (omega arith)
    refused (y ∷ l) e st full linked =
        rw (refuses full linked y l st) (refl, closed_lem (won tid m) (omega arith), refl, refl)

    -- Let the ring be open, of at least two cells, none of them unsafe, between two calls, and let its tickets be below
    -- 2 ^ 63. An `enqueue` of an item (not null, even) that runs alone: while there is room it returns true and
    -- appends the item; on a full linked ring it returns false, closes the ring, and leaves its cells and
    -- its head. A thread that has no tag takes one from the counter first.
    pub prq_enqueue_alone :
        (length q < r.size
          → let s = solo r (rounds tid 5) (m, tid, enq_add x) in
            (s.2 ≡ enqueued true) × Holds r s.0 (q ++ (x ∷ [])))
        × (length q ≡ r.size
            → r.linked ≡ true
            → let s = solo r (rounds tid 4) (m, tid, enq_add x) in
              (s.2 ≡ enqueued false)
              × (is_closed s.0 ≡ true)
              × (s.0.cells ≡ m.cells)
              × (s.0.head ≡ m.head))
    prq_enqueue_alone = (
      λ room. (ap (λ (s : State). s.2) (puts room), rw (puts room) (Holds-after room)),
      λ full linked. refused q full items full linked,
    )
