-- ===== src/Ticket/Start.antt =====
-- The constructor of `DynamicThreadTicket` establishes the invariant.
use mpmc_queues.Base.{
  ℕ, zero, suc, ◌+◌, ◌-◌, ◌*◌, ◌/◌, ◌%◌, ◌^◌, ◌≤◌, ◌<◌, ◌≡◌, refl, ◌∙◌, arith, ◌||◌, ◌==◌, leb, ltb,
  Bool-cases, inl, inr, ℕ_discrete, eq→==, lt→ltb, digit, some, update_ne, if◌then◌else◌,
  digit_full,
}
use native.Mathlib.Nat.{pow-le-pow_right}
use mathlib.Core.Option.{some-injective, none-ne-some}
use mpmc_queues.Ticket.{cap, num_cells, construct, init_storage}
use mpmc_queues.Ticket.System.{begin}
use mpmc_queues.Ticket.Words.{free_bit}
use mpmc_queues.Ticket.Inv.{Inv}
use mpmc_queues.Ticket.Steps.{words_update}

init_storage_before :
    (rounds i remaining : ℕ) (f : ℕ → ℕ) (c : ℕ) → c < i → init_storage rounds i remaining f c ≡ f c
unfolding init_storage
init_storage_before zero i remaining f c lt = refl
init_storage_before (suc n) i remaining f c lt =
    init_storage_before n (i + 1) _ _ c (omega arith) ∙ update_ne f i c _ (omega arith)

first_bits : ℕ → ℕ
first_bits remaining =
    if leb 64 remaining then 2 ^ 64 - 1 else if ltb 0 remaining then 2 ^ remaining - 1 else 0

first_bits-digit : (remaining b : ℕ) → b < 64 → b < remaining → digit (first_bits remaining) b ≡ 1
unfolding first_bits
first_bits-digit remaining b lt within = elim (Bool-cases (leb 64 remaining)) [
  | inl e ↦ rw e (digit_full 64 b lt)
  | inr n ↦ rw (n, lt→ltb 0 remaining (omega arith)) (digit_full remaining b within)
]

first_bits-word : (remaining : ℕ) → first_bits remaining < 2 ^ 64
unfolding first_bits
first_bits-word remaining = elim (Bool-cases (leb 64 remaining)) [
  | inl e ↦ rw e (omega arith)
  | inr n ↦ elim (Bool-cases (ltb 0 remaining)) [
    | inl p ↦
        let le : remaining ≤ 64 = ground arith in
        rw (n, p) (omega (arith, pow-le-pow_right {n = 2} (omega arith) le))
    | inr z ↦ rw (n, z) (omega arith)
  ]
]

-- The constructor marks the tickets below its argument as free.
pub init_storage_in :
    (rounds i remaining : ℕ) (f : ℕ → ℕ) (c b : ℕ)
    → i ≤ c
    → c < i + rounds
    → b < 64
    → (c - i) * 64 + b < remaining
    → digit (init_storage rounds i remaining f c) b ≡ 1
unfolding init_storage first_bits
init_storage_in zero i remaining f c b le inside lt within = absurd (omega arith)
init_storage_in (suc n) i remaining f c b le inside lt within = elim (ℕ_discrete i c) [
  | yes e ↦
      rw (init_storage_before n (i + 1) _ _ c (omega arith), eq→== i c e)
        (first_bits-digit remaining b lt (omega arith))
  | no ne ↦ init_storage_in n (i + 1) _ _ c b (omega arith) (omega arith) lt (ground arith)
]

pub init_storage-words :
    (rounds i remaining : ℕ) (f : ℕ → ℕ)
    → ((k : ℕ) → f k < 2 ^ 64)
    → (k : ℕ) → init_storage rounds i remaining f k < 2 ^ 64
unfolding init_storage first_bits
init_storage-words zero i remaining f all = all
init_storage-words (suc n) i remaining f all =
    init_storage-words n (i + 1) _ _ (words_update 0 f i _ (first_bits-word remaining) all)

module _ {m : ℕ} {storage : ℕ → ℕ} (made : construct m ≡ some storage) where
  made_lem : (m ≤ cap) × (init_storage num_cells 0 m (λ _. 0) ≡ storage)
  unfolding construct
  made_lem = elim (Bool-cases (m == 0 || ltb cap m)) [
    | inl bad ↦ absurd (none-ne-some _ (rw bad at made))
    | inr ok ↦ (ground arith, some-injective _ _ (rw ok at made))
  ]

  pub construct_le : m ≤ cap
  construct_le = made_lem.0

  pub begin-Inv : Inv m (begin storage)
  unfolding begin
  begin-Inv =
      let (small, e) = made_lem in
      record {
        ok = record {
          below = λ i h. absurd (h refl);
          marked = λ i h. absurd (h refl);
          unique = λ i j ne h. absurd (h refl);
          owned = λ t lt z.
              let one : free_bit storage t ≡ 1 = rw (← e) (
                init_storage_in num_cells 0 m (λ _. 0) (t / 64) (t % 64) (omega arith) (omega arith)
                  (omega arith) (omega arith)) in
              absurd (omega (arith, one, z));
        };
        words = rw (← e) (init_storage-words num_cells 0 m (λ _. 0) (λ _. omega arith));
        ready = λ i. tt;
      }
