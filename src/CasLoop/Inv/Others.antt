-- ===== src/CasLoop/Inv/Others.antt =====
-- A move of one thread keeps what the locals of another say about the shared memory.
use native.Mathlib.Nat.{add-mod_right}
use mpmc_queues.Base.{
  ℕ, ◌+◌, ◌%◌, ◌^◌, ◌<◌, ◌≡◌, ◌≢◌, sym, ap, ◌∙◌, some, arith, update, suc-mod-ne,
}
use mpmc_queues.CasLoop.{
  Ring, Shared, Pc, enq_seq, enq_cas, enq_val, enq_pub, deq_seq, deq_cas, deq_val, deq_pub,
}
use mpmc_queues.CasLoop.Spec.{tail_index}
use mpmc_queues.CasLoop.Inv.Defs.{IsRing, cell, IsFresh, Consistent, puts_at, takes_at}
use mpmc_queues.CasLoop.Inv.Memory.{apart}

-- The two threads hold different tickets.
abbrev pub Distinct : Pc → Pc → Type 0
Distinct p q =
    ((t : ℕ) → puts_at p ≡ some t → puts_at q ≡ some t → ⊥)
    × ((h : ℕ) → takes_at p ≡ some h → takes_at q ≡ some h → ⊥)

module _ {r : Ring} {k : ℕ} {m : Shared} {puts : ℕ → ℕ} (ring : IsRing r)
    (small : k + r.size + 1 < 2 ^ 63) (c : Consistent r m puts k) where
  open ring use {two}
  open c use {order, room, word, open_unless, few, filled, vacant}

  -- Cells that are neighbours or one round apart cannot both have the numbers that `seq` shows.
  step-ne : (h : ℕ) → (h + 1) % r.size ≢ h % r.size
  step-ne h = suc-mod-ne r.size h two

  near : (a b : ℕ) → a ≢ b → a < b + r.size → b < a + r.size → a % r.size ≢ b % r.size
  near = apart ring small c

  -- A cell that a dequeue has not released is not free for the next round.
  held-ne : (h t : ℕ) → (cell r m h).seq ≡ h + 1 → (cell r m t).seq ≡ t → t ≢ h + r.size
  held-ne h t sh st e =
      let wrap : t % r.size ≡ h % r.size = rw e (add-mod_right h r.size) in
      absurd (omega (arith, sym sh ∙ ap (λ (i : ℕ). (m.cells i).seq) (sym wrap) ∙ st))

  pub Fresh-win_tail :
      (item t seq : ℕ)
      → m.tail ≡ t
      → IsFresh r m puts (enq_cas item t seq)
      → (q : Pc) → IsFresh r m puts q
      → IsFresh r (record m { tail = t + 1 }) (update puts t item) q
  Fresh-win_tail item t seq e f (enq_seq i u) g = omega arith
  Fresh-win_tail item t seq e f (enq_cas i u s) g = ground arith
  Fresh-win_tail item t seq e f (enq_val i u s) g = ground arith
  Fresh-win_tail item t seq e f (enq_pub i u s) g = ground arith
  Fresh-win_tail item t seq e f (deq_val h) g = ground (arith, held-ne h t)
  Fresh-win_tail item t seq e f (deq_pub h v) g = ground (arith, held-ne h t)
  Fresh-win_tail item t seq e f (deq_seq h) g = g
  Fresh-win_tail item t seq e f (deq_cas h) g = g
  Fresh-win_tail item t seq e f q g = tt

  pub Fresh-write :
      (item t seq : ℕ)
      → IsFresh r m puts (enq_val item t seq)
      → (q : Pc) → Distinct (enq_val item t seq) q
      → IsFresh r m puts q
      → IsFresh r
          (record m { cells = update m.cells (t % r.size) (record (cell r m t) { val = item }) })
          puts
          q
  Fresh-write item t seq f (enq_seq i u) d g = g
  Fresh-write item t seq f (enq_cas i u s) d g = ground arith
  Fresh-write item t seq f (enq_val i u s) d g = ground arith
  Fresh-write item t seq f (enq_pub i u s) d g = ground (arith, near t u, d.0 t)
  Fresh-write item t seq f (deq_val h) d g = ground (arith, step-ne h)
  Fresh-write item t seq f (deq_pub h v) d g = ground (arith, step-ne h)
  Fresh-write item t seq f (deq_seq h) d g = g
  Fresh-write item t seq f (deq_cas h) d g = ground arith
  Fresh-write item t seq f q d g = tt

  pub Fresh-publish :
      (item t seq : ℕ)
      → IsFresh r m puts (enq_pub item t seq)
      → (q : Pc) → Distinct (enq_pub item t seq) q
      → IsFresh r m puts q
      → IsFresh r
          (record m { cells = update m.cells (t % r.size) (record (cell r m t) { seq = seq + 1 }) })
          puts
          q
  Fresh-publish item t seq f (enq_seq i u) d g = g
  Fresh-publish item t seq f (enq_cas i u s) d g = ground arith
  Fresh-publish item t seq f (enq_val i u s) d g = ground (arith, near t u, d.0 t)
  Fresh-publish item t seq f (enq_pub i u s) d g = ground (arith, near t u, d.0 t)
  Fresh-publish item t seq f (deq_val h) d g = ground (arith, step-ne h)
  Fresh-publish item t seq f (deq_pub h v) d g = ground (arith, step-ne h)
  Fresh-publish item t seq f (deq_seq h) d g = g
  Fresh-publish item t seq f (deq_cas h) d g = ground (arith, step-ne h)
  Fresh-publish item t seq f q d g = tt

  pub Fresh-shut :
      (q : Pc) → IsFresh r m puts q → IsFresh r (record m { tail = tail_index m + 2 ^ 63 }) puts q
  Fresh-shut (enq_seq i u) g = omega arith
  Fresh-shut (enq_cas i u s) g = ground arith
  Fresh-shut (enq_val i u s) g = ground arith
  Fresh-shut (enq_pub i u s) g = ground arith
  Fresh-shut (deq_val h) g = ground arith
  Fresh-shut (deq_pub h v) g = ground arith
  Fresh-shut (deq_seq h) g = g
  Fresh-shut (deq_cas h) g = g
  Fresh-shut q g = tt

  pub Fresh-win_head :
      (h : ℕ)
      → m.head ≡ h
      → IsFresh r m puts (deq_cas h)
      → (q : Pc) → IsFresh r m puts q
      → IsFresh r (record m { head = h + 1 }) puts q
  Fresh-win_head h e f (enq_seq i u) g = g
  Fresh-win_head h e f (enq_cas i u s) g = g
  Fresh-win_head h e f (enq_val i u s) g = ground arith
  Fresh-win_head h e f (enq_pub i u s) g = ground arith
  Fresh-win_head h e f (deq_val n) g = ground arith
  Fresh-win_head h e f (deq_pub n v) g = ground arith
  Fresh-win_head h e f (deq_seq n) g = omega arith
  Fresh-win_head h e f (deq_cas n) g = ground arith
  Fresh-win_head h e f q g = tt

  pub Fresh-free :
      (h v : ℕ)
      → IsFresh r m puts (deq_pub h v)
      → (q : Pc) → Distinct (deq_pub h v) q
      → IsFresh r m puts q
      → IsFresh r
          (record m {
            cells = update m.cells (h % r.size) (record (cell r m h) { seq = h + r.size });
          })
          puts
          q
  Fresh-free h v f (enq_seq i u) d g = g
  Fresh-free h v f (enq_cas i u s) d g = ground (arith, step-ne h)
  Fresh-free h v f (enq_val i u s) d g = ground (arith, step-ne h)
  Fresh-free h v f (enq_pub i u s) d g = ground (arith, step-ne h)
  Fresh-free h v f (deq_val n) d g = ground (arith, d.1 h)
  Fresh-free h v f (deq_pub n w) d g = ground (arith, d.1 h)
  Fresh-free h v f (deq_seq n) d g = g
  Fresh-free h v f (deq_cas n) d g = ground arith
  Fresh-free h v f q d g = tt
