-- ===== src/Bucket/Phases.antt =====
-- A phase of enqueues on a drained `PhasedBucket`, then a phase of dequeues.
use mpmc_queues.Base.{
  ℕ, suc, ◌+◌, ◌-◌, ◌*◌, ◌^◌, ◌≤◌, ◌<◌, ◌≡◌, ◌≢◌, ◌⊎◌, refl, ap, ◌∙◌, arith, inl, inr, Option, none,
  some, List, [], ◌∷◌, length, update, update_ne, ℕ_discrete, eq→==, ne→==, le→ltb, bit_and, dec_lt,
}
use mpmc_queues.Bucket.{Phased, tail_of, enqueue, dequeue, fill, drain, size}
use mpmc_queues.Bucket.Words.{head_part, tail_index}
use mpmc_queues.Bucket.Steps.{enqueue-eq, dequeue-some, dequeue-none}

-- The items stand in the buffer from index `i` on.
abbrev pub AreStored : (buffer : ℕ → ℕ) → (i : ℕ) → List ℕ → Type 0
AreStored buffer i [] = Unit {0}
AreStored buffer i (x ∷ xs) = (buffer i ≡ x) × AreStored buffer (i + 1) xs

abbrev pub AreItems : (capacity : ℕ) → List ℕ → Type 0
AreItems capacity [] = Unit {0}
AreItems capacity (x ∷ xs) = (x ≢ capacity) × AreItems capacity xs

abbrev pub answers : List ℕ → List (Option ℕ)
answers [] = none ∷ []
answers (x ∷ xs) = some x ∷ answers xs

-- The tail is 0 and every slot is empty.
pub record IsDrained (capacity : ℕ) (b : Phased) : Type 0 where
  pub low : b.state + 1 < 2 ^ 32
  pub vacant : (i : ℕ) → i < capacity → b.buffer i ≡ capacity

module _ (capacity : ℕ) (small : capacity + 1 < 2 ^ 32) where
  fill-step :
      (x : ℕ) (xs : List ℕ) (b b1 : Phased)
      → enqueue capacity x b ≡ some b1
      → fill capacity (x ∷ xs) b ≡ fill capacity xs b1
  unfolding fill
  fill-step x xs b b1 e =
      ap (λ (o : Option Phased). elim o [ none ↦ none | some b' ↦ fill capacity xs b' ]) e

  drain-step :
      (n : ℕ) (b b1 : Phased) (got : Option ℕ)
      → dequeue capacity b ≡ (b1, got)
      → drain capacity (suc n) b ≡ ((drain capacity n b1).0, got ∷ (drain capacity n b1).1)
  unfolding drain
  drain-step n b b1 got e =
      ap (λ (r : Phased × Option ℕ). ((drain capacity n r.0).0, r.1 ∷ (drain capacity n r.0).1)) e

  -- A phase of enqueues from tail `t` on. The first of a phase clears the old head.
  fill-eq :
      (xs : List ℕ) (t h : ℕ) (b : Phased)
      → b.state ≡ t * 2 ^ 32 + h
      → (t ≡ 0) ⊎ (h ≡ 0)
      → h < 2 ^ 32
      → t + length xs ≤ capacity
      → AreItems capacity xs
      → ((i : ℕ) → t ≤ i → i < capacity → b.buffer i ≡ capacity)
      → (b' : Phased) × (fill capacity xs b ≡ some b')
        × (0 < length xs → b'.state ≡ (t + length xs) * 2 ^ 32)
        × (length xs ≡ 0 → b'.state ≡ b.state)
        × AreStored b'.buffer t xs
        × ((i : ℕ) → i < t → b'.buffer i ≡ b.buffer i)
        × ((i : ℕ) → t + length xs ≤ i → i < capacity → b'.buffer i ≡ capacity)
  unfolding fill
  fill-eq [] t h b st fresh lh room items vacant = (
    b,
    refl,
    λ l. absurd (omega arith),
    λ z. refl,
    tt,
    λ i l. refl,
    λ i le. vacant i (omega arith),
  )
  fill-eq (x ∷ xs) t h b st fresh lh room (ne, items) vacant =
      let b1 : Phased = record { state = (t + 1) * 2 ^ 32; buffer = update b.buffer t x } in
      let one =
        enqueue-eq capacity small t h x b st fresh lh (omega arith) ne
          (vacant t (omega arith) (omega arith)) in
      let (b', e, st', same, stored, before, after) =
        fill-eq xs (t + 1) 0 b1 (omega arith) (inr refl) (omega arith) (omega arith) items
          (λ i le li. update_ne b.buffer t i x (omega arith) ∙ vacant i (omega arith) li) in
      let sum : t + suc (length xs) ≡ t + 1 + length xs = omega arith in
      (
        b',
        fill-step x xs b b1 one ∙ e,
        λ l. elim (ℕ_discrete (length xs) 0) [
          | yes z ↦ omega (arith, same z)
          | no n ↦ rw sum (st' (omega arith))
        ],
        λ z. absurd (omega arith),
        (before t (omega arith) ∙ rw (eq→== t t refl) refl, stored),
        λ i l. before i (omega arith) ∙ update_ne b.buffer t i x (omega arith),
        λ i le li. after i (omega arith) li,
      )

  -- What stands behind index `j` does not change when slot `j` is emptied.
  AreStored-emptied :
      (xs : List ℕ) (f : ℕ → ℕ) (j i : ℕ)
      → j < i
      → AreStored f i xs
      → AreStored (update f j capacity) i xs
  AreStored-emptied [] f j i lt s = tt
  AreStored-emptied (x ∷ xs) f j i lt (e, s) =
      (update_ne f j i capacity (omega arith) ∙ e, AreStored-emptied xs f j (i + 1) (omega arith) s)

  -- A phase of dequeues from head `j` on, one more than there are items.
  drain-eq :
      (xs : List ℕ) (t j : ℕ) (b : Phased)
      → b.state ≡ t * 2 ^ 32 + j
      → t < 2 ^ 32
      → j + length xs + 1 < 2 ^ 32
      → j + length xs ≤ capacity
      → AreItems capacity xs
      → AreStored b.buffer j xs
      → ((i : ℕ) → i < j → i < capacity → b.buffer i ≡ capacity)
      → ((i : ℕ) → j + length xs ≤ i → i < capacity → b.buffer i ≡ capacity)
      → ((drain capacity (length xs + 1) b).1 ≡ answers xs)
        × ((drain capacity (length xs + 1) b).0.state ≡ j + length xs + 1)
        × ((i : ℕ) → i < capacity → (drain capacity (length xs + 1) b).0.buffer i ≡ capacity)
  drain-eq [] t j b st lt lj room items stored before after =
      let none_left : (i : ℕ) → i < capacity → b.buffer i ≡ capacity =
        λ i li. elim (dec_lt i j) [ yes y ↦ before i y li | no n ↦ after i (omega arith) li ] in
      let e = dequeue-none capacity small t j b st lt (omega arith) none_left in
      unfold drain in rw e (refl, omega arith, none_left)
  drain-eq (x ∷ xs) t j b st lt lj room (ne, items) (here, stored) before after =
      let lc : j < capacity = omega arith in
      let full : b.buffer j ≢ capacity = rw here ne in
      let b1 : Phased = record {
        state = t * 2 ^ 32 + (j + 1);
        buffer = update b.buffer j capacity;
      } in
      let e : dequeue capacity b ≡ (b1, some x) =
        dequeue-some capacity small t j b st lt lc full ∙ ap (λ (y : ℕ). (b1, some y)) here in
      let (got, st', all) =
        drain-eq xs t (j + 1) b1 refl lt (omega arith) (omega arith) items
          (AreStored-emptied xs b.buffer j (j + 1) (omega arith) stored)
          (λ i li lc'. elim (ℕ_discrete j i) [
            | yes y ↦ rw (eq→== j i y) refl
            | no n ↦ rw (ne→== j i n) (before i (omega arith) lc')
          ])
          (λ i le li. update_ne b.buffer j i capacity (omega arith) ∙ after i (omega arith) li) in
      let round : suc (length xs) + 1 ≡ suc (length xs + 1) = omega arith in
      rw (round, drain-step (length xs + 1) b b1 (some x) e)
        (ap (λ (r : List (Option ℕ)). some x ∷ r) got, omega (arith, st'), all)

  -- Let the bucket be drained. A phase that enqueues at most `capacity` items, none of them the
  -- empty value, succeeds; `size` is then their number, if there are any. As many dequeues return
  -- the items in the order of the enqueues, one more returns false, and the bucket is drained again.
  pub phases :
      (b : Phased) (xs : List ℕ)
      → IsDrained capacity b
      → length xs ≤ capacity
      → AreItems capacity xs
      → (b' : Phased) × (fill capacity xs b ≡ some b')
        × (0 < length xs → size capacity b' ≡ length xs)
        × ((drain capacity (length xs + 1) b').1 ≡ answers xs)
        × ((i : ℕ) → i < capacity → (drain capacity (length xs + 1) b').0.buffer i ≡ capacity)
        × (0 < length xs → (drain capacity (length xs + 1) b').0.state ≡ length xs + 1)
  unfolding size
  phases b [] d room items =
      let (b', e, big, same, stored, before, after) =
        fill-eq [] 0 b.state b (omega arith) (inl refl) (let l = d.low in omega arith) (omega arith)
          tt (λ i le. d.vacant i) in
      let st : b'.state ≡ b.state = same refl in
      let low = d.low in
      let r =
        dequeue-none capacity small 0 b'.state b' (omega arith) (omega arith) (omega arith)
          (λ i li. after i (omega arith) li) in
      let e1 : drain capacity 1 b' ≡ (record b' { state = b'.state + 1 }, none ∷ []) =
        drain-step 0 b' _ none r ∙ (unfold drain in refl) in
      (
        b',
        e,
        λ l. absurd (omega arith),
        rw e1 refl,
        λ i li. rw e1 (after i (omega arith) li),
        λ l. absurd (omega arith),
      )
  phases b (x ∷ xs) d room items =
      let low = d.low in
      let (b', e, big, same, stored, before, after) =
        fill-eq (x ∷ xs) 0 b.state b (omega arith) (inl refl) (omega arith) (omega arith) items
          (λ i le. d.vacant i) in
      let n = length (x ∷ xs) in
      let st : b'.state ≡ n * 2 ^ 32 + 0 = omega (arith, big (omega arith)) in
      let (got, st', all) =
        drain-eq (x ∷ xs) n 0 b' st (omega arith) (omega arith) (omega arith) items stored
          (λ i l. absurd (omega arith)) after in
      let t : tail_of b'.state ≡ n = rw st (tail_index n 0 (omega arith) (omega arith)) in
      let h : bit_and b'.state (2 ^ 32 - 1) ≡ 0 =
        rw st (head_part n 0 (omega arith) (omega arith)) in
      (
        b',
        e,
        λ l. rw (t, h, le→ltb n 0 (omega arith), le→ltb capacity n (omega arith)) (omega arith),
        got,
        all,
        λ l. omega (arith, st'),
      )
