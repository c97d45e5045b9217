-- ===== src/Prq/Alone/Take.antt =====
-- The accesses of a `dequeue` of `PRQueue` that runs alone.
use mpmc_queues.Base.{
  ℕ, ◌+◌, ◌^◌, ◌≤◌, ◌<◌, ◌≡◌, refl, ◌∙◌, true, false, arith, update, eq→==, ne→==, ltb, Option,
  some, none, zero_bit_or,
}
use mpmc_queues.Bit.Msb.{get_msb-low}
use mpmc_queues.CasLoop.{Ring, slot}
use mpmc_queues.CasLoop.Words.{add64-eq}
use mpmc_queues.Prq.{
  Shared, deq_add, deq_seq, deq_val, deq_same, deq_take, deq_load, deq_skip, deq_tail, fix_tail,
  fix_head, fix_cas, dequeued, is_reserved,
}
use mpmc_queues.Prq.Step.{step, inspect, judge}
use mpmc_queues.Prq.Alone.Defs.{solo, solo-suc, IsItem}
use mpmc_queues.Prq.Alone.Store.{clear_low}

module _ (r : Ring) (m : Shared) (tid : Option ℕ) (i : ℕ) (place : slot r m.head ≡ i)
    (small : m.head + r.size + 1 < 2 ^ 63) where
  abbrev pub won : Shared
  won = record m { head = m.head + 1 }

  run-add : step r tid m deq_add ≡ (won, tid, deq_seq m.head 0 none)
  unfolding step
  run-add = rw (add64-eq m.head 1 (omega arith)) refl

  -- The cell has the item of this ticket.
  module _ (x : ℕ) (item : IsItem x)
      (ready : m.cells i ≡ record { val = x; seq = m.head + r.size }) where
    abbrev pub taken : Shared
    taken = record won { cells = update m.cells i (record { val = 0; seq = m.head + r.size }) }

    run-seq :
        step r tid won (deq_seq m.head 0 none) ≡ (won, tid, deq_val m.head 0 none (m.head + r.size))
    unfolding step
    run-seq = rw (place, ready) refl

    run-val :
        step r tid won (deq_val m.head 0 none (m.head + r.size))
        ≡ (won, tid, deq_same m.head 0 none (m.head + r.size) x)
    unfolding step
    run-val = rw (place, ready) refl

    run-same :
        step r tid won (deq_same m.head 0 none (m.head + r.size) x) ≡ (won, tid, deq_take m.head x)
    unfolding step inspect
    run-same =
        let s = m.head + r.size in
        let last : ltb s s ≡ false = ground arith in
        rw
          (
            place,
            ready,
            eq→== s s refl,
            clear_low s (omega arith),
            add64-eq m.head r.size (omega arith),
            last,
            ne→== x 0 item.0,
            item.1,
            eq→== s s refl,
          )
          refl

    run-take : step r tid won (deq_take m.head x) ≡ (taken, tid, dequeued (some x))
    unfolding step
    run-take = rw (place, ready) refl

    pub five : solo r 5 (m, tid, deq_add) ≡ (taken, tid, dequeued (some x))
    five =
        solo-suc r 4 _ run-add
        ∙ solo-suc r 3 _ run-seq
        ∙ solo-suc r 2 _ run-val
        ∙ solo-suc r 1 _ run-same
        ∙ solo-suc r 0 _ run-take
        ∙ (unfold solo in refl)

  -- The ring is empty.
  module _ (empty : m.tail ≡ m.head) (free : (m.cells i).val ≡ 0)
      (old : (m.cells i).seq ≤ m.head) where
    abbrev s : ℕ
    s = (m.cells i).seq

    abbrev pub skipped : Shared
    skipped = record m {
      head = m.head + 1;
      cells = update m.cells i (record { val = 0; seq = m.head + r.size });
    }

    abbrev pub fixed : Shared
    fixed = record skipped { tail = m.head + 1 }

    look-seq : step r tid won (deq_seq m.head 0 none) ≡ (won, tid, deq_val m.head 0 none s)
    unfolding step
    look-seq = rw place refl

    look-val : step r tid won (deq_val m.head 0 none s) ≡ (won, tid, deq_same m.head 0 none s 0)
    unfolding step
    look-val = rw (place, free) refl

    look-same : step r tid won (deq_same m.head 0 none s 0) ≡ (won, tid, deq_load m.head 0 s 0)
    unfolding step inspect
    look-same =
        let low : ltb (m.head + r.size) s ≡ false = ground arith in
        rw
          (
            place,
            eq→== s s refl,
            clear_low s (omega arith),
            add64-eq m.head r.size (omega arith),
            low,
          )
          refl

    look-tail :
        step r tid won (deq_load m.head 0 s 0) ≡ (won, tid, deq_skip m.head 0 (some m.head) s)
    unfolding step judge is_reserved
    look-tail =
        let behind : ltb m.head (m.head + 1) ≡ true = ground arith in
        rw
          (
            empty,
            get_msb-low 63 s (omega arith),
            clear_low m.head (omega arith),
            add64-eq m.head 1 (omega arith),
            behind,
          )
          refl

    run-skip : step r tid won (deq_skip m.head 0 (some m.head) s) ≡ (skipped, tid, deq_tail m.head)
    unfolding step
    run-skip =
        rw
          (
            place,
            eq→== s s refl,
            get_msb-low 63 s (omega arith),
            add64-eq m.head r.size (omega arith),
            zero_bit_or (m.head + r.size),
            free,
          )
          refl

    run-tail : step r tid skipped (deq_tail m.head) ≡ (skipped, tid, fix_tail)
    unfolding step
    run-tail =
        let behind : ltb m.head (m.head + 1) ≡ true = ground arith in
        rw (empty, clear_low m.head (omega arith), add64-eq m.head 1 (omega arith), behind) refl

    run-fix_tail : step r tid skipped fix_tail ≡ (skipped, tid, fix_head m.head)
    unfolding step
    run-fix_tail = rw empty refl

    run-fix_head :
        step r tid skipped (fix_head m.head) ≡ (skipped, tid, fix_cas m.head (m.head + 1))
    unfolding step
    run-fix_head = let behind : ltb m.head (m.head + 1) ≡ true = ground arith in rw behind refl

    run-fix_cas : step r tid skipped (fix_cas m.head (m.head + 1)) ≡ (fixed, tid, dequeued none)
    unfolding step
    run-fix_cas = rw (empty, eq→== m.head m.head refl) refl

    pub ten : solo r 10 (m, tid, deq_add) ≡ (fixed, tid, dequeued none)
    ten =
        solo-suc r 9 _ run-add
        ∙ solo-suc r 8 _ look-seq
        ∙ solo-suc r 7 _ look-val
        ∙ solo-suc r 6 _ look-same
        ∙ solo-suc r 5 _ look-tail
        ∙ solo-suc r 4 _ run-skip
        ∙ solo-suc r 3 _ run-tail
        ∙ solo-suc r 2 _ run-fix_tail
        ∙ solo-suc r 1 _ run-fix_head
        ∙ solo-suc r 0 _ run-fix_cas
        ∙ (unfold solo in refl)
