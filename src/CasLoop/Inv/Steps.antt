-- ===== src/CasLoop/Inv/Steps.antt =====
-- A shared access of the code is a move of the invariant's proof.
use mpmc_queues.Base.{
  ℕ, ◌+◌, ◌^◌, ◌<◌, ◌≡◌, refl, Bool, true, false, not, ◌&&◌, inl, inr, none, arith, Bool-cases,
  ◌==◌, ltb,
}
use mpmc_queues.CasLoop.{
  Ring, Shared, step, is_closed, close_tail, add64, sub64, signed_lt, Pc, idle, enq_tail, enq_seq,
  enq_cas, enq_val, enq_pub, enq_close, deq_head, deq_seq, deq_cas, deq_val, deq_pub, deq_size_tail,
  deq_size_head, closing, enqueued, dequeued, closed,
}
use mpmc_queues.CasLoop.System.{note}
use mpmc_queues.CasLoop.Words.{lt_of_open, close_tail_lem, add64-eq}
use mpmc_queues.CasLoop.Inv.Defs.{IsRing, cell, IsFresh, Consistent, puts_at, takes_at, IsAllowed}
use mpmc_queues.CasLoop.Inv.Acts.{Act, local, win_tail, write, publish, shut, win_head, read, free}

module _ {r : Ring} {k : ℕ} {m : Shared} {puts : ℕ → ℕ} (ring : IsRing r)
    (small : k + r.size + 1 < 2 ^ 63) (c : Consistent r m puts k) (weak : Bool) where
  open ring use {slot_lem}

  abbrev Result : Pc → Type 0
  Result p = Act r m puts p (step r weak m p).0 (note weak m p puts) (step r weak m p).1

  tail-open : r.linked && is_closed m.tail ≡ false → m.tail < 2 ^ 63
  tail-open o = elim (Bool-cases r.linked) [
    | inl l ↦ lt_of_open m.tail c.word (ground arith)
    | inr u ↦ c.open_unless u
  ]

  step-enq_tail : (item : ℕ) → Result (enq_tail item)
  unfolding step
  step-enq_tail item = elim (Bool-cases (r.linked && is_closed m.tail)) [
    | inl refused ↦ rw refused (local _ tt refl refl refl refl)
    | inr unshut ↦
        let lt : m.tail < 2 ^ 63 = tail-open unshut in
        rw unshut (local _ (omega arith) refl refl refl refl)
  ]

  step-enq_seq : (item t : ℕ) → IsFresh r m puts (enq_seq item t) → Result (enq_seq item t)
  unfolding step
  step-enq_seq item t f = elim (Bool-cases (t == (cell r m t).seq)) [
    | inl same ↦
        rw (slot_lem, same)
          (local _ (ground arith, ground arith, ground arith, λ _. ground arith) refl refl refl
            refl)
    | inr other ↦ elim (Bool-cases (ltb (cell r m t).seq t && r.linked)) [
      | inl full ↦ rw (slot_lem, other, full) (local _ tt refl refl refl refl)
      | inr stale ↦ rw (slot_lem, other, stale) (local _ tt refl refl refl refl)
    ]
  ]

  step-enq_cas :
      (item t seq : ℕ) → IsFresh r m puts (enq_cas item t seq) → Result (enq_cas item t seq)
  unfolding step
  step-enq_cas item t seq f = elim (Bool-cases (not weak && m.tail == t)) [
    | inl won ↦ rw (won, add64-eq t 1 (omega arith)) (win_tail (ground arith))
    | inr lost ↦ rw lost (local _ tt refl refl refl refl)
  ]

  step-enq_val : (item t seq : ℕ) → Result (enq_val item t seq)
  unfolding step
  step-enq_val item t seq = rw slot_lem write

  step-enq_pub :
      (item t seq : ℕ) → IsFresh r m puts (enq_pub item t seq) → Result (enq_pub item t seq)
  unfolding step
  step-enq_pub item t seq f = let few = c.few in rw (slot_lem, add64-eq seq 1 (omega arith)) publish

  step-deq_seq : (h : ℕ) → IsFresh r m puts (deq_seq h) → Result (deq_seq h)
  unfolding step
  step-deq_seq h f =
      let e : add64 h 1 ≡ h + 1 = add64-eq h 1 (omega (arith, c.order, c.few)) in
      elim (Bool-cases ((cell r m h).seq == h + 1)) [
        | inl ready ↦ rw (slot_lem, e, ready) (local _ (f, λ _. ground arith) refl refl refl refl)
        | inr other ↦ elim (Bool-cases (signed_lt (cell r m h).seq (h + 1))) [
          | inl low ↦ rw (slot_lem, e, other, low) (local _ tt refl refl refl refl)
          | inr high ↦ rw (slot_lem, e, other, high) (local _ tt refl refl refl refl)
        ]
      ]

  step-deq_cas : (h : ℕ) → IsFresh r m puts (deq_cas h) → Result (deq_cas h)
  unfolding step
  step-deq_cas h f = elim (Bool-cases (not weak && m.head == h)) [
    | inl won ↦ rw (won, add64-eq h 1 (omega (arith, c.order, c.few))) (win_head (ground arith))
    | inr lost ↦ rw lost (local _ tt refl refl refl refl)
  ]

  step-deq_val : (h : ℕ) → Result (deq_val h)
  unfolding step
  step-deq_val h = rw slot_lem read

  step-deq_pub : (h v : ℕ) → IsFresh r m puts (deq_pub h v) → Result (deq_pub h v)
  unfolding step
  step-deq_pub h v f = rw (slot_lem, add64-eq h r.size (omega (arith, c.order, c.few))) free

  step-deq_size_head : (t : ℕ) → Result (deq_size_head t)
  unfolding step
  step-deq_size_head t = elim (Bool-cases (sub64 t m.head == 0)) [
    | inl empty ↦ rw empty (local _ tt refl refl refl refl)
    | inr busy ↦ rw busy (local _ tt refl refl refl refl)
  ]

  step-shut :
      (p' : Pc)
      → r.linked ≡ true
      → puts_at p' ≡ none
      → takes_at p' ≡ none
      → IsFresh r m puts p'
      → (p : Pc) → puts_at p ≡ none
      → takes_at p ≡ none
      → Act r m puts p (close_tail m) puts p'
  step-shut p' l a b g p a' b' = rw (close_tail_lem m c.word) (shut p' l a' b' a b g)

  pub step-Act : (p : Pc) → IsAllowed r p → IsFresh r m puts p → Result p
  unfolding step
  step-Act (enq_tail item) l f = step-enq_tail item
  step-Act (enq_seq item t) l f = step-enq_seq item t f
  step-Act (enq_cas item t seq) l f = step-enq_cas item t seq f
  step-Act (enq_val item t seq) l f = step-enq_val item t seq
  step-Act (enq_pub item t seq) l f = step-enq_pub item t seq f
  step-Act (enq_close item) l f = step-shut _ l refl refl tt _ refl refl
  step-Act deq_head l f = local _ (omega arith) refl refl refl refl
  step-Act (deq_seq h) l f = step-deq_seq h f
  step-Act (deq_cas h) l f = step-deq_cas h f
  step-Act (deq_val h) l f = step-deq_val h
  step-Act (deq_pub h v) l f = step-deq_pub h v f
  step-Act deq_size_tail l f = local _ tt refl refl refl refl
  step-Act (deq_size_head t) l f = step-deq_size_head t
  step-Act closing l f = step-shut _ l refl refl tt _ refl refl
  step-Act idle l f = local _ tt refl refl refl refl
  step-Act (enqueued b) l f = local _ tt refl refl refl refl
  step-Act (dequeued v) l f = local _ tt refl refl refl refl
  step-Act closed l f = local _ tt refl refl refl refl

pub step-IsAllowed :
    (r : Ring) (weak : Bool) (m : Shared) (p : Pc) → IsAllowed r p → IsAllowed r (step r weak m p).1
unfolding step
step-IsAllowed r weak m (enq_tail item) l = ground arith
step-IsAllowed r weak m (enq_seq item t) l = ground arith
step-IsAllowed r weak m (enq_cas item t seq) l = ground arith
step-IsAllowed r weak m (deq_seq h) l = ground arith
step-IsAllowed r weak m (deq_cas h) l = ground arith
step-IsAllowed r weak m (deq_size_head t) l = ground arith
step-IsAllowed r weak m (enq_close item) l = tt
step-IsAllowed r weak m closing l = tt
step-IsAllowed r weak m p l = tt
