-- ===== src/Scq/Raw.antt =====
-- The rings of the third-party library, as far as `SCQueue` relies on them: queues of the indices below
-- `2 ^ order`, each held at most once, that refuse indices only while they are closed.
use mpmc_queues.Base.{
  ℕ, ◌^◌, ◌<◌, ◌≡◌, ◌≢◌, Bool, true, false, List, [], ◌∷◌, ◌++◌, count, ltb, if◌then◌else◌,
}
use mpmc_queues.Ring.Raw.{HasPlace, lfring_empty}

pub record Rings (R : Type 0) : Type 1 where
  pub lfring_init_empty : (order : ℕ) → R
  pub lfring_init_full : (order : ℕ) → R
  pub lfring_enqueue : (order e : ℕ) → R → R × Bool
  pub lfring_dequeue : (order : ℕ) → R → R × ℕ
  pub lfring_close : R → R
  pub lfring_open : R → R
  pub lfring_is_closed : R → Bool
  pub lfring_reset_threshold : (order : ℕ) → R → R
  pub lfring_get_head : R → ℕ
  pub lfring_get_tail : R → ℕ
  pub items : R → List ℕ
  pub init_empty_items : (order : ℕ) → items (lfring_init_empty order) ≡ []
  pub init_empty_open : (order : ℕ) → lfring_is_closed (lfring_init_empty order) ≡ false
  pub init_full_items :
      (order x : ℕ)
      → order < 64
      → count x (items (lfring_init_full order)) ≡ (if ltb x (2 ^ order) then 1 else 0)
  pub enqueue_open :
      (order e : ℕ) (r : R)
      → lfring_is_closed r ≡ false
      → HasPlace order e (items r)
      → ((lfring_enqueue order e r).1 ≡ true)
        × (lfring_is_closed (lfring_enqueue order e r).0 ≡ false)
  pub enqueue_ok :
      (order e : ℕ) (r : R)
      → HasPlace order e (items r)
      → (lfring_enqueue order e r).1 ≡ true
      → items (lfring_enqueue order e r).0 ≡ items r ++ (e ∷ [])
  pub enqueue_refused :
      (order e : ℕ) (r : R)
      → (lfring_enqueue order e r).1 ≡ false
      → items (lfring_enqueue order e r).0 ≡ items r
  pub dequeue_empty :
      (order : ℕ) (r : R)
      → (lfring_dequeue order r).1 ≡ lfring_empty
      → (items r ≡ []) × (items (lfring_dequeue order r).0 ≡ [])
  pub dequeue_index :
      (order : ℕ) (r : R)
      → (lfring_dequeue order r).1 ≢ lfring_empty
      → items r ≡ (lfring_dequeue order r).1 ∷ items (lfring_dequeue order r).0
  pub close_items : (r : R) → items (lfring_close r) ≡ items r
  pub close_closed : (r : R) → lfring_is_closed (lfring_close r) ≡ true
