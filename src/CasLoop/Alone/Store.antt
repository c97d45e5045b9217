-- ===== src/CasLoop/Alone/Store.antt =====
-- The accesses of an `enqueue` that finds its cell free.
use mpmc_queues.Base.{
  ℕ, ◌+◌, ◌^◌, ◌<◌, ◌≡◌, refl, ◌∙◌, true, false, ◌&&◌, arith, update, update_self, eq→==, fun_ext,
}
use mpmc_queues.CasLoop.{
  Ring, Shared, Cell, step, slot, enq_tail, enq_seq, enq_cas, enq_val, enq_pub, enqueued, is_closed,
}
use mpmc_queues.CasLoop.Words.{is_closed-low, add64-eq}
use mpmc_queues.CasLoop.Alone.Defs.{solo, solo-suc}

module _ (r : Ring) (m : Shared) (x i : ℕ) (place : slot r m.tail ≡ i)
    (free : (m.cells i).seq ≡ m.tail) (small : m.tail + 1 < 2 ^ 63) where
  abbrev pub stored : Shared
  stored = record m {
    tail = m.tail + 1;
    cells = update m.cells i (record { val = x; seq = m.tail + 1 });
  }

  opened : r.linked && is_closed m.tail ≡ false
  opened = ground (arith, is_closed-low m.tail)

  pub run-tail : step r false m (enq_tail x) ≡ (m, enq_seq x m.tail)
  unfolding step
  run-tail = rw opened

  run-seq : step r false m (enq_seq x m.tail) ≡ (m, enq_cas x m.tail m.tail)
  unfolding step
  run-seq = rw (place, free, eq→== m.tail m.tail refl)

  abbrev won : Shared
  won = record m { tail = m.tail + 1 }

  run-cas : step r false m (enq_cas x m.tail m.tail) ≡ (won, enq_val x m.tail m.tail)
  unfolding step
  run-cas = rw (eq→== m.tail m.tail refl, add64-eq m.tail 1 (omega arith))

  abbrev written : Shared
  written = record won { cells = update m.cells i (record { val = x; seq = (m.cells i).seq }) }

  run-val : step r false won (enq_val x m.tail m.tail) ≡ (written, enq_pub x m.tail m.tail)
  unfolding step
  run-val = rw place

  twice-update : (c d : Cell) → update (update m.cells i c) i d ≡ update m.cells i d
  twice-update c d = fun_ext (λ j. ground arith)

  run-pub : step r false written (enq_pub x m.tail m.tail) ≡ (stored, enqueued true)
  unfolding step
  run-pub = rw (place, update_self m.cells i, twice-update, add64-eq m.tail 1 (omega arith))

  pub five : solo r 5 m (enq_tail x) ≡ (stored, enqueued true)
  five =
      solo-suc r 4 _ _ run-tail
      ∙ solo-suc r 3 _ _ run-seq
      ∙ solo-suc r 2 _ _ run-cas
      ∙ solo-suc r 1 _ _ run-val
      ∙ solo-suc r 0 _ _ run-pub
      ∙ (unfold solo in refl)
