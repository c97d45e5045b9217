-- ===== src/Prq/Alone/Store.antt =====
-- The accesses of an `enqueue` of `PRQueue` that runs alone.
use mpmc_queues.Base.{
  ℕ, ◌+◌, ◌%◌, ◌^◌, ◌≤◌, ◌<◌, ◌≡◌, ◌≢◌, refl, ◌∙◌, true, false, ◌&&◌, arith, update, update_self,
  eq→==, ne→==, fun_ext, leb, Option, some, none, Bool, suc, ◌*◌, bit_or_step, bit_or,
}
use mpmc_queues.Bit.{set_msb, clear_msb}
use mpmc_queues.Bit.Msb.{get_msb-low, get_msb-high, clear_msb-mod}
use mpmc_queues.CasLoop.{Ring, Cell, slot, add64}
use mpmc_queues.CasLoop.Words.{add64-eq, or_msb}
use mpmc_queues.Prq.{
  Shared, enq_add, enq_tag, enq_seq, enq_val, enq_reserve, enq_mark, enq_put, enq_full, enq_close,
  enqueued, is_closed_, is_closed, thread_reserved, close_tail,
}
use mpmc_queues.Prq.Step.{step}
use mpmc_queues.Prq.Alone.Defs.{HasTag, tag, rounds, access, solo, solo-suc}

and_false : (b : Bool) → b && false ≡ false
and_false true = refl
and_false false = refl

pub open_low : (t : ℕ) → t < 2 ^ 63 → is_closed_ t ≡ false
unfolding is_closed_
open_low t h = rw (get_msb-low 63 t h)

pub clear_low : (t : ℕ) → t < 2 ^ 63 → clear_msb 64 t ≡ t
clear_low t h = let e : t % 2 ^ 63 ≡ t = omega arith in rw (clear_msb-mod 63, e) refl

pub closed_lem : (m : Shared) → m.tail < 2 ^ 63 → is_closed (close_tail m) ≡ true
unfolding is_closed is_closed_ close_tail
closed_lem m lt =
    let e : bit_or m.tail (set_msb 64 0) ≡ m.tail + 2 ^ 63 =
      omega (arith, or_msb m.tail (omega arith)) in
    rw (e, get_msb-high 63 (m.tail + 2 ^ 63) (omega arith) (omega arith)) refl

module _ (r : Ring) (m : Shared) (x t i : ℕ) (place : slot r t ≡ i)
    (small : t + r.size < 2 ^ 63) where
  -- The ticket is won; the thread has its tag.
  module _ (u : ℕ) (tagged : u ≢ 0) (free : (m.cells i).val ≡ 0) (old : (m.cells i).seq ≤ t) where
    abbrev pub stored : Shared
    stored = record m { cells = update m.cells i (record { val = x; seq = t + r.size }) }

    abbrev at_cell : (v s : ℕ) → Shared
    at_cell v s = record m { cells = update m.cells i (record { val = v; seq = s }) }

    twice : (c d : Cell) → update (update m.cells i c) i d ≡ update m.cells i d
    twice c d = fun_ext (λ j. ground arith)

    run-seq : step r (some u) m (enq_seq x t u) ≡ (m, some u, enq_val x t u (m.cells i).seq)
    unfolding step
    run-seq = rw place refl

    run-val :
        step r (some u) m (enq_val x t u (m.cells i).seq)
        ≡ (m, some u, enq_reserve x t u (m.cells i).seq)
    unfolding step
    run-val =
        let below : leb (m.cells i).seq t ≡ true = ground arith in
        rw
          (
            place,
            free,
            clear_low (m.cells i).seq (omega arith),
            below,
            get_msb-low 63 (m.cells i).seq (omega arith),
          )
          refl

    run-reserve :
        step r (some u) m (enq_reserve x t u (m.cells i).seq)
        ≡ (at_cell u (m.cells i).seq, some u, enq_mark x t u (m.cells i).seq)
    unfolding step
    run-reserve = rw (place, free) refl

    run-mark :
        step r (some u) (at_cell u (m.cells i).seq) (enq_mark x t u (m.cells i).seq)
        ≡ (at_cell u (t + r.size), some u, enq_put x t u)
    unfolding step
    run-mark =
        rw
          (
            place,
            update_self m.cells i,
            eq→== (m.cells i).seq (m.cells i).seq refl,
            twice,
            add64-eq t r.size (omega arith),
          )
          refl

    run-put :
        step r (some u) (at_cell u (t + r.size)) (enq_put x t u) ≡ (stored, some u, enqueued true)
    unfolding step
    run-put = rw (place, update_self m.cells i, eq→== u u refl, twice) refl

    pub five : solo r 5 (m, some u, enq_seq x t u) ≡ (stored, some u, enqueued true)
    five =
        solo-suc r 4 _ run-seq
        ∙ solo-suc r 3 _ run-val
        ∙ solo-suc r 2 _ run-reserve
        ∙ solo-suc r 1 _ run-mark
        ∙ solo-suc r 0 _ run-put
        ∙ (unfold solo in refl)

  -- The cell of the ticket has an item: the ring is full.
  module _ (u y : ℕ) (busy : (m.cells i).val ≡ y) (some_item : y ≢ 0) (linked : r.linked ≡ true)
      (last : t ≡ m.head + r.size) where
    look-seq : step r (some u) m (enq_seq x t u) ≡ (m, some u, enq_val x t u (m.cells i).seq)
    unfolding step
    look-seq = rw place refl

    look-val : step r (some u) m (enq_val x t u (m.cells i).seq) ≡ (m, some u, enq_full x t)
    unfolding step
    look-val = rw (place, busy, ne→== y 0 some_item) refl

    look-full : step r (some u) m (enq_full x t) ≡ (m, some u, enq_close)
    unfolding step
    look-full =
        let reached : leb (m.head + r.size) (m.head + r.size) ≡ true = ground arith in
        rw (last, add64-eq m.head r.size (omega arith), linked, reached) refl

    run-close : step r (some u) m enq_close ≡ (close_tail m, some u, enqueued false)
    unfolding step
    run-close = refl

    pub four : solo r 4 (m, some u, enq_seq x t u) ≡ (close_tail m, some u, enqueued false)
    four =
        solo-suc r 3 _ look-seq
        ∙ solo-suc r 2 _ look-val
        ∙ solo-suc r 1 _ look-full
        ∙ solo-suc r 0 _ run-close
        ∙ (unfold solo in refl)

-- The counter after an enqueue has its tag.
abbrev pub counted : Option ℕ → ℕ → ℕ
counted none c = add64 c 1
counted (some u) c = c

pub tag_pos : (tid : Option ℕ) (m : Shared) → HasTag tid → tag tid m ≢ 0
unfolding thread_reserved
tag_pos none m h = λ e. omega (arith, bit_or_step (m.counter * 2 % 2 ^ 64) 1, e)
tag_pos (some u) m h = h

-- What an enqueue leaves that has won a ticket and has a tag.
abbrev pub won : Option ℕ → Shared → Shared
won tid m = record m { tail = m.tail + 1; counter = counted tid m.counter }

module _ (r : Ring) (m : Shared) (x : ℕ) (small : m.tail + 1 < 2 ^ 63) where
  opened : r.linked && is_closed_ m.tail ≡ false
  opened = rw (open_low m.tail (omega arith)) (and_false r.linked)

  run-fresh_add :
      access r (m, none, enq_add x) ≡ (record m { tail = m.tail + 1 }, none, enq_tag x m.tail)
  unfolding step
  run-fresh_add = rw (opened, add64-eq m.tail 1 (omega arith)) refl

  run-fresh_tag :
      access r (record m { tail = m.tail + 1 }, none, enq_tag x m.tail)
      ≡ (won none m, some (tag none m), enq_seq x m.tail (tag none m))
  unfolding step
  run-fresh_tag = refl

  run-tagged_add :
      (u : ℕ) → access r (m, some u, enq_add x) ≡ (won (some u) m, some u, enq_seq x m.tail u)
  unfolding step
  run-tagged_add u = rw (opened, add64-eq m.tail 1 (omega arith)) refl

  pub solo-rounds :
      (tid : Option ℕ) (n : ℕ)
      → solo r (rounds tid n) (m, tid, enq_add x)
        ≡ solo r n (won tid m, some (tag tid m), enq_seq x m.tail (tag tid m))
  solo-rounds none n = solo-suc r (suc n) _ run-fresh_add ∙ solo-suc r n _ run-fresh_tag
  solo-rounds (some u) n = solo-suc r n _ (run-tagged_add u)
