-- ===== src/Ring/Queue.antt =====
-- `LFring` is a queue of indices.
use native.Mathlib.Nat.{pow-suc, pow-le-pow_right}
use mpmc_queues.Base.{
  ℕ, suc, ◌+◌, ◌*◌, ◌^◌, ◌≤◌, ◌<◌, ◌≡◌, ◌≢◌, ap, ◌∙◌, arith, true, Option, none, some, [], ◌∷◌,
  ◌++◌, ◌==◌, ltb, leb, if◌then◌else◌, Bool-cases, inl, inr,
}
use mpmc_queues.Bit.{log2}
use mpmc_queues.Bit.Log.{log2_bounds}
use mpmc_queues.Ring.{order_of, LFring, enqueue, dequeue}
use mpmc_queues.Ring.Raw.{RawRing, HasPlace, lfring_empty}

-- The order of a queue for `s` items is the least one that has room for them, or the minimum: there
-- is room for `s` indices, and a greater order than the minimum has less than twice that.
pub order_of_bounds :
    (min_order s : ℕ)
    → s ≢ 0
    → s < 2 ^ 64
    → (s ≤ 2 ^ order_of min_order s)
      × (min_order ≤ order_of min_order s)
      × (min_order < order_of min_order s → 2 ^ order_of min_order s < 2 * s)
unfolding order_of
order_of_bounds min_order s nz lt =
    let (lo, hi) = log2_bounds 64 s nz lt in
    let twice = pow-suc 2 (log2 64 s) in
    let up = if ltb (2 ^ log2 64 s) s then log2 64 s + 1 else log2 64 s in
    let room : (s ≤ 2 ^ up) × (2 ^ up < 2 * s) = elim (Bool-cases (ltb (2 ^ log2 64 s) s)) [
      | inl y ↦
          let e : log2 64 s + 1 ≡ suc (log2 64 s) = omega arith in
          rw (y, e) (omega arith, let below : 2 ^ log2 64 s < s = ground arith in omega arith)
      | inr y ↦ rw y (ground arith, omega arith)
    ] in
    elim (Bool-cases (leb min_order up)) [
      | inl y ↦ rw y (room.0, ground arith, λ h. room.1)
      | inr y ↦
          let short : up < min_order = ground arith in
          let more =
            pow-le-pow_right {n = 2} (omega arith) {i = up} {j = min_order} (omega arith) in
          rw y (omega (arith, room.0, more), omega arith, λ h. absurd (omega arith))
    ]

module _ {R : Type 0} (raw : RawRing R) (q : LFring raw) where
  open raw use {
    items, ring_dequeue, enqueue_ok, enqueue_items, dequeue_empty, dequeue_empty_left, dequeue_item,
  }

  pub enqueue_lem :
      (x : ℕ)
      → HasPlace q.scq_order x (items q.ring)
      → ((enqueue raw x q).1 ≡ true) × (items (enqueue raw x q).0.ring ≡ items q.ring ++ (x ∷ []))
  unfolding enqueue
  enqueue_lem x place =
      (enqueue_ok q.scq_order x q.ring place, enqueue_items q.scq_order x q.ring place)

  pub dequeue-none :
      (dequeue raw q).1 ≡ none → (items q.ring ≡ []) × (items (dequeue raw q).0.ring ≡ [])
  unfolding dequeue
  dequeue-none e = elim (Bool-cases ((ring_dequeue q.scq_order q.ring).1 == lfring_empty)) [
    | inl y ↦
        let z : (ring_dequeue q.scq_order q.ring).1 ≡ lfring_empty = ground arith in
        (dequeue_empty q.scq_order q.ring z, dequeue_empty_left q.scq_order q.ring z)
    | inr y ↦ absurd (cc (rw y at e))
  ]

  pub dequeue-some :
      (x : ℕ) → (dequeue raw q).1 ≡ some x → items q.ring ≡ x ∷ items (dequeue raw q).0.ring
  unfolding dequeue
  dequeue-some x e = elim (Bool-cases ((ring_dequeue q.scq_order q.ring).1 == lfring_empty)) [
    | inl y ↦ absurd (cc (rw y at e))
    | inr y ↦
        let nz : (ring_dequeue q.scq_order q.ring).1 ≢ lfring_empty = ground arith in
        let f : ◌≡◌ {A = Option ℕ} (some (ring_dequeue q.scq_order q.ring).1) (some x) =
          rw y at e in
        dequeue_item q.scq_order q.ring nz
        ∙ ap (λ (z : ℕ). z ∷ items (ring_dequeue q.scq_order q.ring).0) (cc f)
  ]
