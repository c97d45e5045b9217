-- ===== src/Recycler/Safety.antt =====
-- Every schedule of `Recycler`: where an index stands, and whose was the index that a call returns.
use native.Mathlib.Nat.{pow-le-pow_right}
use mpmc_queues.Base.{
  ℕ, Bool, zero, suc, ◌+◌, ◌^◌, ◌≤◌, ◌<◌, ◌≡◌, ◌≢◌, refl, ap, ◌∙◌, arith, List, [], ◌∷◌, count,
  tally, count-append, ℕ_discrete, none, some, ◌⊎◌, eq→==, ne→==, ltb, if◌then◌else◌, Bool-cases,
  inl, inr,
}
use mpmc_queues.Ring.{LFring, order_of}
use mpmc_queues.Ring as Ring
use mpmc_queues.Ring.Raw.{RawRing, HasPlace}
use mpmc_queues.Ring.Queue.{enqueue_lem, order_of_bounds}
use mpmc_queues.Recycler.{Config, fill, construct, bucket_of, grace, rec_get}
use mpmc_queues.Recycler.System.{System, Event, run, next, pooled, client, pending, run_all, begin}
use mpmc_queues.Recycler.Held.{held, in_pool}
use mpmc_queues.Recycler.Inv.{Inv}
use mpmc_queues.Recycler.Steps.{Inv-next}
use mpmc_queues.Recycler.Returns.{gives, gives-step, takes, takes-step}

module _ {R : Type 0} (raw : RawRing R) where
  open raw use {items, init_items}

  -- The queue holds the indices below `i`, once each.
  abbrev HoldsBelow : ℕ → LFring raw → Type 0
  HoldsBelow i q = (y : ℕ) → count y (items q.ring) ≡ (if ltb y i then 1 else 0)

  one_more :
      (i y : ℕ) → (if ltb y i then 1 else 0) + (tally y i + 0) ≡ (if ltb y (i + 1) then 1 else 0)
  one_more i y = ground arith

  below_le : (i y : ℕ) → (if ltb y i then 1 else 0) ≤ 1
  below_le i y = ground arith

  below_lt : (i y : ℕ) → 0 < (if ltb y i then 1 else 0) → y < i
  below_lt i y h = ground arith

  fill_lem :
      (left i : ℕ) (q : LFring raw) (order : ℕ)
      → q.scq_order ≡ order
      → order < 64
      → i + left ≤ 2 ^ order
      → HoldsBelow i q
      → HoldsBelow (i + left) (fill raw left i q) × ((fill raw left i q).scq_order ≡ order)
  unfolding fill Ring.enqueue
  fill_lem zero i q order o small room h = let e : i + 0 ≡ i = omega arith in rw e (h, o)
  fill_lem (suc n) i q order o small room h =
      let e : i + suc n ≡ i + 1 + n = omega arith in
      let place : HasPlace order i (items q.ring) = record {
        small = small;
        in_range = omega arith;
        absent = h i ∙ ground arith;
        at_most_once = λ y. omega (arith, h y, below_le i y);
        all_in_range = λ y pos. omega (arith, below_lt i y (omega (arith, h y)));
      } in
      let (ok, more) = enqueue_lem raw q i (rw o place) in
      rw e (
        fill_lem n (i + 1) (Ring.enqueue raw i q).0 order o small (omega arith) (λ y.
          ap (count y) more ∙ count-append y (items q.ring) (i ∷ []) ∙ rw (h y) (one_more i y)))

  Inv-begin :
      (c : Config) (atom : ℕ)
      → order_of c.min_order c.capacity < 64
      → c.capacity ≤ 2 ^ order_of c.min_order c.capacity
      → Inv raw (order_of c.min_order c.capacity) (begin raw c atom)
  unfolding begin construct bucket_of Ring.construct
  Inv-begin c atom small room =
      let o = order_of c.min_order c.capacity in
      let blank : LFring raw = Ring.construct raw c.min_order c.capacity in
      let (full, same) =
        fill_lem c.capacity 0 blank o refl small (omega arith)
          (λ y. ap (count y) (init_items o) ∙ ground arith) in
      let zero_of : (y : ℕ) → count y (items (raw.init_empty o)) ≡ 0 =
        λ y. ap (count y) (init_items o) in
      let e : 0 + c.capacity ≡ c.capacity = omega arith in
      record {
        pool = λ y. elim (Bool-cases (ltb y c.capacity)) [
          | inl z ↦ rw z (omega (arith, zero_of y, rw (e, z) at (full y)))
          | inr z ↦ rw z (omega (arith, zero_of y, rw (e, z) at (full y)))
        ];
        named = λ y ne. elim (Bool-cases (ltb y c.capacity)) [
          | inl z ↦ ground arith
          | inr z ↦ absurd (ne (rw z refl))
        ];
        orders = λ k. elim (ℕ_discrete 2 k) [
          | yes f ↦ rw (eq→== 2 k f) same
          | no n ↦ rw (ne→== 2 k n) refl
        ];
        mine = λ i x h. absurd h;
        small = small;
      }

  Inv-run_all :
      {order : ℕ} (c : Config) (es : List Event) (s : System raw)
      → Inv raw order s
      → Inv raw order (run_all raw c es s)
  unfolding run_all
  Inv-run_all c [] s inv = inv
  Inv-run_all c (e ∷ es) s inv = Inv-run_all c es (next raw c e s) (Inv-next raw c s inv e)

  small_order : (min_order s : ℕ) → s ≢ 0 → s < 2 ^ 63 → min_order < 64 → order_of min_order s < 64
  small_order min_order s nz lt small =
      let (fits, above, tight) = order_of_bounds min_order s nz (omega arith) in
      elim (Bool-cases (ltb (order_of min_order s) 64)) [
        | inl y ↦ ground arith
        | inr y ↦
            let big : 64 ≤ order_of min_order s = ground arith in
            let pow = pow-le-pow_right {n = 2} (omega arith) big in
            absurd (omega (arith, pow, tight (omega arith)))
      ]

  -- For any ring that keeps the promises of `RawRing`, a capacity from 1 to below `2 ^ 63`, and clients
  -- that give back only indices that a client has: after every schedule of protecting, clearing,
  -- retiring, reclaiming and caching, an index stands in the buckets exactly once if the recycler has
  -- it, and in none while a client has it or a thread is handing it over. An index that an access of a
  -- thread then returns to its client was the recycler's, or pending in that thread's own call, and is
  -- the client's from there on. What `reclaim` takes at an epoch does not stand in the bucket of the
  -- indices retired at that epoch.
  pub one_owner :
      (c : Config) (atom : ℕ) (es : List Event)
      → c.capacity ≢ 0
      → c.capacity < 2 ^ 63
      → c.min_order < 64
      → let s = run_all raw c es (begin raw c atom) in
        ((x : ℕ) → held raw s.mem.buckets 5 x ≡ in_pool (s.place x))
        × ((i x : ℕ)
            → let after = next raw c (run i) s in
              gives (s.pc i) ≡ none
              → gives (after.pc i) ≡ some x
              → ((s.place x ≡ pooled) ⊎ (s.place x ≡ pending i)) × (after.place x ≡ client))
        × ((i a : ℕ) (act : Bool) (epoch x : ℕ)
            → s.pc i ≡ rec_get a act epoch
            → takes ((next raw c (run i) s).pc i) ≡ some x
            → count x (items (s.mem.buckets (bucket_of epoch grace)).ring) ≡ 0)
  unfolding next
  one_owner c atom es nz lt small =
      let s = run_all raw c es (begin raw c atom) in
      let inv = Inv-run_all c es (begin raw c atom) (
        Inv-begin c atom (small_order c.min_order c.capacity nz lt small)
          (order_of_bounds c.min_order c.capacity nz (omega arith)).0) in
      (
        inv.pool,
        λ i x was h.
            gives-step raw s inv i c.max_threads (s.pc i) x refl was (rw (eq→== i i refl) at h),
        λ i a act epoch x e h.
            takes-step raw s inv i c.max_threads a act epoch x (rw (eq→== i i refl, e) at h),
      )
