-- ===== src/Ticket/Words.antt =====
-- A ticket is a bit of the storage: 1 when it is free.
use native.Mathlib.Nat.{pow-suc}
use mpmc_queues.Base.{
  ℕ, zero, suc, ◌+◌, ◌*◌, ◌/◌, ◌%◌, ◌^◌, ◌<◌, ◌≡◌, ◌≢◌, refl, arith, ◌==◌, Bool-cases, inl, inr,
  digit, update, update_self, clear_bit_self, clear_bit_other, set_bit_self, set_bit_other, ne→==,
  eq→==, ℕ_discrete, digit-zero, digit-suc,
}
use mpmc_queues.Ticket.{ctz_loop, count_trailing_zeros, claim, give_back}

abbrev pub free_bit : (ℕ → ℕ) → (ticket : ℕ) → ℕ
free_bit storage t = digit (storage (t / 64)) (t % 64)

zeros_below :
    (x b : ℕ)
    → ((i : ℕ) → i < b → digit (x / 2) i ≡ 0)
    → x % 2 ≡ 0
    → (i : ℕ) → i < suc b
    → digit x i ≡ 0
zeros_below x b zeros even zero lt = rw (digit-zero x) even
zeros_below x b zeros even (suc i) lt = rw (digit-suc x i) (zeros i (omega arith))

ctz_loop_lem :
    (fuel x c : ℕ)
    → x ≢ 0
    → x < 2 ^ fuel
    → (b : ℕ) × (ctz_loop fuel x c ≡ c + b)
      × (b < fuel)
      × (digit x b ≡ 1)
      × ((i : ℕ) → i < b → digit x i ≡ 0)
unfolding ctz_loop
ctz_loop_lem zero x c ne lt = absurd (omega arith)
ctz_loop_lem (suc fuel) x c ne lt = elim (Bool-cases (x % 2 == 0)) [
  | inl even ↦
      let (b, e, l, one, zeros) =
        ctz_loop_lem fuel (x / 2) (c + 1) (ground arith) (omega (arith, pow-suc 2 fuel)) in
      (
        suc b,
        rw even (omega arith),
        omega arith,
        rw digit-suc one,
        zeros_below x b zeros (ground arith),
      )
  | inr odd ↦ (
    0,
    rw odd (omega arith),
    omega arith,
    rw digit-zero (ground arith),
    λ i l. absurd (omega arith),
  )
]

-- The lowest 1 of a word.
pub ctz_lem :
    (x : ℕ)
    → x ≢ 0
    → x < 2 ^ 64
    → (count_trailing_zeros x < 64)
      × (digit x (count_trailing_zeros x) ≡ 1)
      × ((i : ℕ) → i < count_trailing_zeros x → digit x i ≡ 0)
unfolding count_trailing_zeros
ctz_lem x ne lt =
    let (b, e, l, one, zeros) = ctz_loop_lem 64 x 0 ne lt in
    let e' : ctz_loop 64 x 0 ≡ b = omega arith in rw (ne→== x 0 ne, e') (l, one, zeros)

module _ (storage : ℕ → ℕ) (cell : ℕ) (ne : storage cell ≢ 0) (lt : storage cell < 2 ^ 64) where
  abbrev ticket : ℕ
  ticket = cell * 64 + count_trailing_zeros (storage cell)

  pub free_before : free_bit storage ticket ≡ 1
  free_before =
      let (l, one, _) = ctz_lem (storage cell) ne lt in
      let c : ticket / 64 ≡ cell = omega arith in
      let b : ticket % 64 ≡ count_trailing_zeros (storage cell) = omega arith in rw (c, b) one

  pub claimed_self : free_bit (update storage cell (claim (storage cell))) ticket ≡ 0
  unfolding claim
  claimed_self =
      let (l, one, _) = ctz_lem (storage cell) ne lt in
      let c : ticket / 64 ≡ cell = omega arith in
      let b : ticket % 64 ≡ count_trailing_zeros (storage cell) = omega arith in
      rw (c, b, eq→== cell cell refl)
        (clear_bit_self 64 (count_trailing_zeros (storage cell)) (storage cell) l)

  pub claimed_other :
      (t : ℕ)
      → t ≢ ticket
      → free_bit (update storage cell (claim (storage cell))) t ≡ free_bit storage t
  unfolding claim
  claimed_other t other =
      let (l, one, _) = ctz_lem (storage cell) ne lt in
      elim (ℕ_discrete cell (t / 64)) [
        | yes e ↦
            rw (← e, eq→== cell cell refl)
              (clear_bit_other 64 (count_trailing_zeros (storage cell)) (storage cell) (t % 64) l
                (omega arith) (omega arith))
        | no n ↦ rw (ne→== cell (t / 64) n)
      ]

module _ (storage : ℕ → ℕ) (t : ℕ) where
  pub given_self : free_bit (give_back t storage) t ≡ 1
  unfolding give_back
  given_self = rw update_self (set_bit_self (t % 64) (storage (t / 64)))

  pub given_other : (u : ℕ) → u ≢ t → free_bit (give_back t storage) u ≡ free_bit storage u
  unfolding give_back
  given_other u other = elim (ℕ_discrete (t / 64) (u / 64)) [
    | yes e ↦
        rw (← e, eq→== (t / 64) (t / 64) refl)
          (set_bit_other (t % 64) (storage (t / 64)) (u % 64) (omega arith))
    | no n ↦ rw (ne→== (t / 64) (u / 64) n)
  ]
