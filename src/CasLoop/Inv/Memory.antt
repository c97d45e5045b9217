-- ===== src/CasLoop/Inv/Memory.antt =====
-- Each move keeps what the invariant says of the shared memory.
use native.Mathlib.Nat.{add-mod_right}
use mpmc_queues.Base.{
  ℕ, ◌+◌, ◌%◌, ◌^◌, ◌≤◌, ◌<◌, ◌≡◌, ◌≢◌, sym, ap, ◌∙◌, inr, true, arith, update, eq_of_mod-eq,
  dec_lt, ℕ_discrete,
}
use mpmc_queues.CasLoop.{Ring, Shared, enq_cas, enq_val, enq_pub, deq_cas, deq_pub}
use mpmc_queues.CasLoop.Spec.{tail_index}
use mpmc_queues.CasLoop.Inv.Defs.{IsRing, cell, IsFresh, Consistent, IsVacant}

module _ {r : Ring} {k : ℕ} {m : Shared} {puts : ℕ → ℕ} (ring : IsRing r)
    (small : k + r.size + 1 < 2 ^ 63) (c : Consistent r m puts k) where
  open ring use {two}
  open c use {order, room, word, open_unless, few, filled, vacant}

  -- Two tickets of the window have different cells.
  pub apart : (a b : ℕ) → a ≢ b → a < b + r.size → b < a + r.size → a % r.size ≢ b % r.size
  apart a b ne ab ba e = ne (eq_of_mod-eq r.size a b e ab ba)

  pub Consistent-more : Consistent r m puts (k + 1)
  Consistent-more = record {
    order = order;
    room = room;
    word = word;
    open_unless = open_unless;
    few = omega arith;
    filled = filled;
    vacant = vacant;
  }

  pub room-win_tail : (t : ℕ) → tail_index m ≡ t → (cell r m t).seq ≡ t → t < m.head + r.size
  room-win_tail t e s = elim (ℕ_discrete t (m.head + r.size)) [
    | yes full ↦
        let wrap : t % r.size ≡ m.head % r.size = rw full (add-mod_right m.head r.size) in
        let s' : (cell r m m.head).seq ≡ t = ap (λ (i : ℕ). (m.cells i).seq) (sym wrap) ∙ s in
        absurd (ground (arith, filled m.head))
    | no other ↦ omega arith
  ]

  pub Consistent-win_tail :
      (item t seq : ℕ)
      → m.tail ≡ t
      → IsFresh r m puts (enq_cas item t seq)
      → Consistent r (record m { tail = t + 1 }) (update puts t item) (k + 1)
  Consistent-win_tail item t seq e (s, lt, le, f) =
      let ti : tail_index m ≡ t = omega arith in
      let rm : t < m.head + r.size = room-win_tail t ti (f ti) in
      record {
        order = omega arith;
        room = omega arith;
        word = omega arith;
        open_unless = λ _. omega arith;
        few = omega arith;
        filled = λ u a b. ground (arith, filled u, f ti);
        vacant = λ u a b. ground (arith, vacant u);
      }

  pub Consistent-write :
      (item t seq : ℕ)
      → IsFresh r m puts (enq_val item t seq)
      → Consistent r
          (record m { cells = update m.cells (t % r.size) (record (cell r m t) { val = item }) })
          puts
          (k + 1)
  Consistent-write item t seq f = record {
    order = order;
    room = room;
    word = word;
    open_unless = open_unless;
    few = omega arith;
    filled = λ u a b. ground (arith, filled u, apart t u, f);
    vacant = λ u a b. ground (arith, vacant u);
  }

  pub Consistent-publish :
      (item t seq : ℕ)
      → IsFresh r m puts (enq_pub item t seq)
      → Consistent r
          (record m { cells = update m.cells (t % r.size) (record (cell r m t) { seq = seq + 1 }) })
          puts
          (k + 1)
  Consistent-publish item t seq f = record {
    order = order;
    room = room;
    word = word;
    open_unless = open_unless;
    few = omega arith;
    filled = λ u a b. ground (arith, filled u, apart t u, f);
    vacant = λ u a b. ground (arith, vacant u, apart t u, f);
  }

  pub Consistent-shut :
      r.linked ≡ true → Consistent r (record m { tail = tail_index m + 2 ^ 63 }) puts (k + 1)
  Consistent-shut l =
      let e : (tail_index m + 2 ^ 63) % 2 ^ 63 ≡ tail_index m = omega arith in
      record {
        order = omega arith;
        room = omega arith;
        word = omega arith;
        open_unless = λ o. cc;
        few = omega arith;
        filled = λ u a b. filled u a (omega arith);
        vacant = λ u a b. vacant u (omega arith) b;
      }

  pub busy-win_head : (h : ℕ) → m.head ≡ h → (cell r m h).seq ≡ h + 1 → h < tail_index m
  busy-win_head h e s = elim (dec_lt h (tail_index m)) [
    | yes lt ↦ lt
    | no ge ↦ absurd (ground (arith, vacant h))
  ]

  IsVacant-win_head :
      (h u : ℕ)
      → m.head ≡ h
      → (cell r m h).seq ≡ h + 1
      → tail_index m ≤ u
      → u < h + 1 + r.size
      → IsVacant r m puts u
  IsVacant-win_head h u e s a b = elim (ℕ_discrete u (h + r.size)) [
    | yes last ↦
        let wrap : u % r.size ≡ h % r.size = rw last (add-mod_right h r.size) in
        let s' : (cell r m u).seq ≡ h + 1 = ap (λ (i : ℕ). (m.cells i).seq) wrap ∙ s in
        inr (ap (λ (q : ℕ). q + r.size) s' ∙ omega arith)
    | no other ↦ vacant u a (omega arith)
  ]

  pub Consistent-win_head :
      (h : ℕ)
      → m.head ≡ h
      → IsFresh r m puts (deq_cas h)
      → Consistent r (record m { head = h + 1 }) puts (k + 1)
  Consistent-win_head h e (le, f) =
      let lt : h < tail_index m = busy-win_head h e (f e) in
      record {
        order = omega arith;
        room = omega arith;
        word = word;
        open_unless = open_unless;
        few = omega arith;
        filled = λ u a b. filled u (omega arith) b;
        vacant = λ u a b. IsVacant-win_head h u e (f e) (omega arith) b;
      }

  pub Consistent-free :
      (h v : ℕ)
      → IsFresh r m puts (deq_pub h v)
      → Consistent r
          (record m {
            cells = update m.cells (h % r.size) (record (cell r m h) { seq = h + r.size });
          })
          puts
          (k + 1)
  Consistent-free h v f =
      let wrap : (h + r.size) % r.size ≡ h % r.size = add-mod_right h r.size in
      record {
        order = order;
        room = room;
        word = word;
        open_unless = open_unless;
        few = omega arith;
        filled = λ u a b. ground (arith, filled u, apart (h + r.size) u, f);
        vacant = λ u a b. ground (arith, vacant u, apart (h + r.size) u, f);
      }
