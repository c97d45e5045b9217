-- ===== src/CasLoop/Inv/Acts.antt =====
-- The shared accesses of a thread as moves on plain numbers, where the invariant rules out that
-- the words wrap.
use mpmc_queues.Base.{ℕ, ◌+◌, ◌%◌, ◌^◌, ◌≡◌, true, none, some, update}
use mpmc_queues.CasLoop.{
  Ring, Shared, Pc, enq_cas, enq_val, enq_pub, enqueued, deq_cas, deq_val, deq_pub, dequeued,
}
use mpmc_queues.CasLoop.Spec.{tail_index}
use mpmc_queues.CasLoop.Inv.Defs.{cell, puts_at, takes_at, IsFresh}

module _ (r : Ring) (m : Shared) (puts : ℕ → ℕ) where
  pub data Act : Pc → Shared → (ℕ → ℕ) → Pc → Type 0 where
    local :
        {p : Pc} (p' : Pc)
        → IsFresh r m puts p'
        → puts_at p ≡ none
        → takes_at p ≡ none
        → puts_at p' ≡ none
        → takes_at p' ≡ none
        → Act p m puts p'
    win_tail :
        {item t seq : ℕ}
        → m.tail ≡ t
        → Act
            (enq_cas item t seq)
            (record m { tail = t + 1 })
            (update puts t item)
            (enq_val item t seq)
    write :
        {item t seq : ℕ}
        → Act
            (enq_val item t seq)
            (record m { cells = update m.cells (t % r.size) (record (cell r m t) { val = item }) })
            puts
            (enq_pub item t seq)
    publish :
        {item t seq : ℕ}
        → Act
            (enq_pub item t seq)
            (record m {
              cells = update m.cells (t % r.size) (record (cell r m t) { seq = seq + 1 });
            })
            puts
            (enqueued true)
    shut :
        {p : Pc} (p' : Pc)
        → r.linked ≡ true
        → puts_at p ≡ none
        → takes_at p ≡ none
        → puts_at p' ≡ none
        → takes_at p' ≡ none
        → IsFresh r m puts p'
        → Act p (record m { tail = tail_index m + 2 ^ 63 }) puts p'
    win_head : {h : ℕ} → m.head ≡ h → Act (deq_cas h) (record m { head = h + 1 }) puts (deq_val h)
    read : {h : ℕ} → Act (deq_val h) m puts (deq_pub h (cell r m h).val)
    free :
        {h v : ℕ}
        → Act
            (deq_pub h v)
            (record m {
              cells = update m.cells (h % r.size) (record (cell r m h) { seq = h + r.size });
            })
            puts
            (dequeued (some v))
