-- ===== src/Faa/Counts.antt =====
-- How often an item stands in the cells.
use mpmc_queues.Base.{
  ℕ, zero, suc, ◌+◌, ◌≤◌, ◌<◌, ◌≡◌, refl, arith, List, [], ◌∷◌, count, tally, update, update_ne,
  ℕ_discrete, eq→==, ne→==, ◌≢◌,
}

-- The first `n` cells.
abbrev pub listing : (ℕ → ℕ) → (n : ℕ) → List ℕ
listing cells zero = []
listing cells (suc n) = cells n ∷ listing cells n

pub count-listing_past :
    (x : ℕ) (cells : ℕ → ℕ) (n t y : ℕ)
    → n ≤ t
    → count x (listing (update cells t y) n) ≡ count x (listing cells n)
count-listing_past x cells zero t y le = refl
count-listing_past x cells (suc n) t y le =
    let e : update cells t y n ≡ cells n = update_ne cells t n y (omega arith) in
    rw e (omega (arith, count-listing_past x cells n t y (omega arith)))

-- Writing one cell exchanges one occurrence for another.
pub count-listing-update :
    (x : ℕ) (cells : ℕ → ℕ) (n t y : ℕ)
    → t < n
    → count x (listing (update cells t y) n) + tally x (cells t)
      ≡ count x (listing cells n) + tally x y
count-listing-update x cells zero t y lt = absurd (omega arith)
count-listing-update x cells (suc n) t y lt = elim (ℕ_discrete t n) [
  | yes e ↦ rw (← e, eq→== t t refl) (omega (arith, count-listing_past x cells t t y (omega arith)))
  | no ne ↦
      let e : update cells t y n ≡ cells n = update_ne cells t n y ne in
      rw e (omega (arith, count-listing-update x cells n t y (omega arith)))
]

-- Cells that hold `y` alone do not hold `x`.
pub count-listing_all :
    (x y n : ℕ) (cells : ℕ → ℕ)
    → x ≢ y
    → ((t : ℕ) → t < n → cells t ≡ y)
    → count x (listing cells n) ≡ 0
count-listing_all x y zero cells ne all = refl
count-listing_all x y (suc n) cells ne all =
    rw (all n (omega arith), ne→== x y ne)
      (omega (arith, count-listing_all x y n cells ne (λ t lt. all t (omega arith))))
