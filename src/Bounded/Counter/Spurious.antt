-- ===== src/Bounded/Counter/Spurious.antt =====
-- The two loads of `capacity_respected_` are not taken at one moment.
use mpmc_queues.Base.{
  ℕ, zero, suc, ◌-◌, ◌≤◌, ◌<◌, ◌^◌, ◌≡◌, refl, sym, ap, ◌∙◌, arith, Bool, true, false, ◌&&◌, Option,
  none, some, List, [], ◌∷◌, ◌++◌, ltb, lt→ltb,
}
use mpmc_queues.Unbounded as U
use mpmc_queues.Unbounded.Segment.{SegmentOps}
use mpmc_queues.Unbounded.Spec.{contents}
use mpmc_queues.Bounded.Counter.{
  Config, Shared, Pc, enq_protect, deq_start, enqueued, dequeued, step, capacity_respected,
  construct,
}

module _ {S : Type 0} (seg : SegmentOps S) (k : Config) where
  open seg use {fresh, put, get, items, fresh_empty, fresh_takes, put_items, get_some, get_none}

  -- `n` accesses of thread `i` in a row.
  unfoldable pub solo : (n i : ℕ) → Shared S → Pc → Shared S × Pc
  solo zero i m p = (m, p)
  solo (suc n) i m p = let r = step seg k i m p in solo n i r.0 r.1

  -- The new proxy.
  blank : Shared S
  unfolding U.construct
  blank = record { list = U.construct seg; pushed = 0; popped = 0; last_seen = λ _. 0 }

  -- The only item of a fresh segment comes out again.
  only_item : (info : Bool) (y : ℕ) → (get (put info y fresh).0).1 ≡ some y
  only_item info y = from (get (put info y fresh).0).1 refl
    where
      held : items (put info y fresh).0 ≡ y ∷ []
      held =
          put_items info y fresh (fresh_takes info y)
          ∙ ap (λ (q : List ℕ). q ++ (y ∷ [])) fresh_empty

      from :
          (o : Option ℕ) → (get (put info y fresh).0).1 ≡ o → (get (put info y fresh).0).1 ≡ some y
      from none e =
          let z : ◌≡◌ {A = List ℕ} (y ∷ []) [] = sym held ∙ get_none (put info y fresh).0 e in
          absurd cc
      from (some x) e =
          let z : ◌≡◌ {A = List ℕ} (y ∷ []) (x ∷ items (get (put info y fresh).0).0) =
            sym held ∙ get_some (put info y fresh).0 x e in
          e ∙ ap some (cc z)

  left_empty : (info : Bool) (y : ℕ) → items (get (put info y fresh).0).0 ≡ []
  left_empty info y =
      let held : items (put info y fresh).0 ≡ y ∷ [] =
        put_items info y fresh (fresh_takes info y)
        ∙ ap (λ (q : List ℕ). q ++ (y ∷ [])) fresh_empty in
      let z : ◌≡◌ {A = List ℕ} (y ∷ []) (y ∷ items (get (put info y fresh).0).0) =
        sym held ∙ get_some (put info y fresh).0 y (only_item info y) in
      cc z

  blank_refuses :
      (x y : ℕ)
      → 1 ≤ k.full_capacity
      → k.full_capacity < 2 ^ 64
      → let a = solo 3 0 blank (enq_protect x) in
        let b = solo 6 1 a.0 (enq_protect y) in
        let d = solo 4 1 b.0 deq_start in
        let e = solo 1 0 d.0 a.1 in
        (b.1 ≡ enqueued true)
        × (d.1 ≡ dequeued (some y))
        × (e.1 ≡ enqueued false)
        × (contents seg e.0.list ≡ [])
  unfolding solo step blank capacity_respected
  blank_refuses x y some_room small =
      let info = k.info_required && false in
      let room : ltb 0 k.full_capacity ≡ true = lt→ltb 0 k.full_capacity (omega arith) in
      let over : ltb (2 ^ 64 - 1) k.full_capacity ≡ false = ground arith in
      rw (room, fresh_takes info y, only_item info y, over)
        (refl, refl, refl, ap (λ (q : List ℕ). q ++ []) (left_empty info y))

  -- On a new proxy of any capacity from 1 to below `2 ^ 64`: thread 0 begins to enqueue `x` and loads the
  -- first counter. Thread 1 enqueues `y` and dequeues it again. Then the enqueue of thread 0 loads the
  -- second counter and returns false, while the queue is empty.
  pub refused_while_empty :
      (m : Shared S) (x y : ℕ)
      → construct seg k ≡ some m
      → 1 ≤ k.full_capacity
      → k.full_capacity < 2 ^ 64
      → let a = solo 3 0 m (enq_protect x) in
        let b = solo 6 1 a.0 (enq_protect y) in
        let d = solo 4 1 b.0 deq_start in
        let e = solo 1 0 d.0 a.1 in
        (b.1 ≡ enqueued true)
        × (d.1 ≡ dequeued (some y))
        × (e.1 ≡ enqueued false)
        × (contents seg e.0.list ≡ [])
  unfolding construct blank
  refused_while_empty m x y made some_room small =
      let same : blank ≡ m = ground arith in rw (← same) (blank_refuses x y some_room small)
