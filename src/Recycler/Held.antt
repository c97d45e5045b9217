-- ===== src/Recycler/Held.antt =====
-- How often an index stands in the buckets of `Recycler`.
use mpmc_queues.Base.{
  ℕ, zero, suc, ◌+◌, ◌-◌, ◌%◌, ◌^◌, ◌≤◌, ◌<◌, ◌≡◌, ◌≢◌, refl, arith, count, update, update_ne,
  ℕ_discrete, eq→==, bit_and, bit_and-low,
}
use mpmc_queues.Ring.{LFring}
use mpmc_queues.Ring.Raw.{RawRing}
use mpmc_queues.Recycler.{BucketState, bucket_of, offset_of, grace, free}
use mpmc_queues.Recycler.System.{Place, pooled, client, pending, nowhere}

abbrev pub in_pool : Place → ℕ
in_pool pooled = 1
in_pool _ = 0

pub in_pool_pos : (p : Place) → 0 < in_pool p → p ≡ pooled
in_pool_pos pooled h = refl
in_pool_pos client h = absurd (omega arith)
in_pool_pos (pending i) h = absurd (omega arith)
in_pool_pos nowhere h = absurd (omega arith)

pub in_pool-le : (p : Place) → in_pool p ≤ 1
in_pool-le pooled = omega arith
in_pool-le client = omega arith
in_pool-le (pending i) = omega arith
in_pool-le nowhere = omega arith

pub bucket_of-lt : (e : ℕ) (st : BucketState) → bucket_of e st < 4
unfolding bucket_of
bucket_of-lt e st =
    let low : bit_and ((e + offset_of st) % 2 ^ 64) (2 ^ 2 - 1)
        ≡ (e + offset_of st) % 2 ^ 64 % 2 ^ 2 =
      bit_and-low ((e + offset_of st) % 2 ^ 64) 2 in
    rw low (omega arith)

pub grace-apart : (e : ℕ) → bucket_of e free ≢ bucket_of e grace
unfolding bucket_of
grace-apart e same =
    let low : (w : ℕ) → bit_and w (2 ^ 2 - 1) ≡ w % 2 ^ 2 = λ w. bit_and-low w 2 in
    omega (arith, rw (low, low) at same)

module _ {R : Type 0} (raw : RawRing R) where
  open raw use {items}

  -- How often an index stands in the first `n` buckets.
  abbrev pub held : (ℕ → LFring raw) → (n x : ℕ) → ℕ
  held b zero x = 0
  held b (suc n) x = count x (items (b n).ring) + held b n x

  pub held_past :
      (b : ℕ → LFring raw) (n k : ℕ) (q : LFring raw) (x : ℕ)
      → n ≤ k
      → held (update b k q) n x ≡ held b n x
  held_past b zero k q x le = refl
  held_past b (suc n) k q x le =
      let e : update b k q n ≡ b n = update_ne b k n q (omega arith) in
      rw e (omega (arith, held_past b n k q x (omega arith)))

  pub held-update :
      (b : ℕ → LFring raw) (n k : ℕ) (q : LFring raw) (x : ℕ)
      → k < n
      → held (update b k q) n x + count x (items (b k).ring) ≡ held b n x + count x (items q.ring)
  held-update b zero k q x lt = absurd (omega arith)
  held-update b (suc n) k q x lt = elim (ℕ_discrete k n) [
    | yes e ↦ rw (← e, eq→== k k refl) (omega (arith, held_past b k k q x (omega arith)))
    | no ne ↦
        let e : update b k q n ≡ b n = update_ne b k n q ne in
        rw e (omega (arith, held-update b n k q x (omega arith)))
  ]

  pub count-le-held :
      (b : ℕ → LFring raw) (n k x : ℕ) → k < n → count x (items (b k).ring) ≤ held b n x
  count-le-held b zero k x lt = absurd (omega arith)
  count-le-held b (suc n) k x lt = elim (ℕ_discrete k n) [
    | yes e ↦ rw e (omega arith)
    | no ne ↦ omega (arith, count-le-held b n k x (omega arith))
  ]

  -- An index that stands in two buckets is held twice.
  pub count-count-le-held :
      (b : ℕ → LFring raw) (n k l x : ℕ)
      → k < n
      → l < n
      → k ≢ l
      → count x (items (b k).ring) + count x (items (b l).ring) ≤ held b n x
  count-count-le-held b zero k l x lt lt' ne = absurd (omega arith)
  count-count-le-held b (suc n) k l x lt lt' ne = elim (ℕ_discrete k n) [
    | yes e ↦ rw e (omega (arith, count-le-held b n l x (omega (arith, ne))))
    | no f ↦ elim (ℕ_discrete l n) [
      | yes e ↦ rw e (omega (arith, count-le-held b n k x (omega (arith, f))))
      | no g ↦ omega (arith, count-count-le-held b n k l x (omega (arith, f)) (omega (arith, g)) ne)
    ]
  ]
