-- ===== src/Ring/Raw.antt =====
-- The ring of the third-party library, as far as `LFring` relies on it: a queue of the indices below
-- `2 ^ order`, each of which it holds at most once, for an order below 64.
use mpmc_queues.Base.{ℕ, ◌-◌, ◌^◌, ◌≤◌, ◌<◌, ◌≡◌, ◌≢◌, Bool, true, List, [], ◌∷◌, ◌++◌, count}

-- `LFRING_EMPTY`, the greatest `size_t`.
abbrev pub lfring_empty : ℕ
lfring_empty = 2 ^ 64 - 1

-- An index may be put in: it is in range, it is not there, and what is there is in range too.
pub record HasPlace (order x : ℕ) (q : List ℕ) : Type 0 where
  pub small : order < 64
  pub in_range : x < 2 ^ order
  pub absent : count x q ≡ 0
  pub at_most_once : (y : ℕ) → count y q ≤ 1
  pub all_in_range : (y : ℕ) → 0 < count y q → y < 2 ^ order

pub record RawRing (R : Type 0) : Type 1 where
  pub init_empty : (order : ℕ) → R
  pub ring_enqueue : (order x : ℕ) → R → R × Bool
  pub ring_dequeue : (order : ℕ) → R → R × ℕ
  pub items : R → List ℕ
  pub init_items : (order : ℕ) → items (init_empty order) ≡ []
  pub enqueue_ok :
      (order x : ℕ) (r : R) → HasPlace order x (items r) → (ring_enqueue order x r).1 ≡ true
  pub enqueue_items :
      (order x : ℕ) (r : R)
      → HasPlace order x (items r)
      → items (ring_enqueue order x r).0 ≡ items r ++ (x ∷ [])
  pub dequeue_empty : (order : ℕ) (r : R) → (ring_dequeue order r).1 ≡ lfring_empty → items r ≡ []
  pub dequeue_empty_left :
      (order : ℕ) (r : R)
      → (ring_dequeue order r).1 ≡ lfring_empty
      → items (ring_dequeue order r).0 ≡ []
  pub dequeue_item :
      (order : ℕ) (r : R)
      → (ring_dequeue order r).1 ≢ lfring_empty
      → items r ≡ (ring_dequeue order r).1 ∷ items (ring_dequeue order r).0
