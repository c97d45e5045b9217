-- ===== src/Hazard/Vectors.antt =====
-- Removing an element of a vector by swapping it with the last one.
use mpmc_queues.Base.{
  ℕ, zero, suc, ◌+◌, ◌-◌, ◌<◌, ◌≡◌, ◌≢◌, refl, ap, ◌∙◌, arith, List, [], ◌∷◌, length, count, tally,
}
use mpmc_queues.Hazard.{at, set_at, back, pop_back, swap_pop}

length-set_at : (v : List ℕ) (i y : ℕ) → length (set_at v i y) ≡ length v
unfolding set_at
length-set_at [] i y = refl
length-set_at (x ∷ v) zero y = refl
length-set_at (x ∷ v) (suc i) y = ap suc (length-set_at v i y)

length-pop_back : (v : List ℕ) → length (pop_back v) ≡ length v - 1
unfolding pop_back
length-pop_back [] = refl
length-pop_back (x ∷ []) = refl
length-pop_back (x ∷ y ∷ v) = omega (arith, length-pop_back (y ∷ v))

count-set_at :
    (x : ℕ) (v : List ℕ) (i y : ℕ)
    → i < length v
    → count x (set_at v i y) + tally x (at v i) ≡ count x v + tally x y
unfolding set_at at
count-set_at x [] i y lt = absurd (omega arith)
count-set_at x (z ∷ v) zero y lt = omega arith
count-set_at x (z ∷ v) (suc i) y lt = omega (arith, count-set_at x v i y (omega arith))

count-pop_back :
    (x : ℕ) (v : List ℕ) → 0 < length v → count x (pop_back v) + tally x (back v) ≡ count x v
unfolding pop_back back
count-pop_back x [] lt = absurd (omega arith)
count-pop_back x (y ∷ []) lt = omega arith
count-pop_back x (y ∷ z ∷ v) lt = omega (arith, count-pop_back x (z ∷ v) (omega arith))

back-set_at : (v : List ℕ) (i : ℕ) → back (set_at v i (back v)) ≡ back v
unfolding set_at back
back-set_at [] i = refl
back-set_at (x ∷ []) zero = refl
back-set_at (x ∷ []) (suc i) = refl
back-set_at (x ∷ y ∷ v) zero = refl
back-set_at (x ∷ y ∷ v) (suc zero) = back-set_at (y ∷ v) zero
back-set_at (x ∷ y ∷ v) (suc (suc i)) = back-set_at (y ∷ v) (suc i)

at-set_at : (v : List ℕ) (i j y : ℕ) → j ≢ i → at (set_at v i y) j ≡ at v j
unfolding set_at at
at-set_at [] i j y ne = refl
at-set_at (x ∷ v) zero zero y ne = absurd (ne refl)
at-set_at (x ∷ v) zero (suc j) y ne = refl
at-set_at (x ∷ v) (suc i) zero y ne = refl
at-set_at (x ∷ v) (suc i) (suc j) y ne = at-set_at v i j y (omega arith)

at-pop_back : (v : List ℕ) (j : ℕ) → suc j < length v → at (pop_back v) j ≡ at v j
unfolding pop_back at
at-pop_back [] j lt = absurd (omega arith)
at-pop_back (x ∷ []) j lt = absurd (omega arith)
at-pop_back (x ∷ y ∷ v) zero lt = refl
at-pop_back (x ∷ y ∷ v) (suc j) lt = at-pop_back (y ∷ v) j (omega arith)

module _ (v : List ℕ) (i : ℕ) (lt : i < length v) where
  pub length-swap_pop : suc (length (swap_pop v i)) ≡ length v
  unfolding swap_pop
  length-swap_pop = omega (arith, length-pop_back (set_at v i (back v)), length-set_at v i (back v))

  pub count-swap_pop : (x : ℕ) → count x (swap_pop v i) + tally x (at v i) ≡ count x v
  unfolding swap_pop
  count-swap_pop x =
      let w = set_at v i (back v) in
      let l : 0 < length w = omega (arith, length-set_at v i (back v)) in
      let last : count x (pop_back w) + tally x (back v) ≡ count x w =
        rw (back-set_at v i) at (count-pop_back x w l) in
      omega (arith, last, count-set_at x v i (back v) lt)

  pub at-swap_pop : (j : ℕ) → j < i → at (swap_pop v i) j ≡ at v j
  unfolding swap_pop
  at-swap_pop j below =
      let w = set_at v i (back v) in
      at-pop_back w j (omega (arith, length-set_at v i (back v)))
      ∙ at-set_at v i j (back v) (omega arith)

-- A number that stands nowhere does not occur.
pub count_absent : (x : ℕ) (v : List ℕ) → ((j : ℕ) → j < length v → at v j ≢ x) → count x v ≡ 0
unfolding at
count_absent x [] absent = refl
count_absent x (y ∷ v) absent =
    let rest : count x v ≡ 0 = count_absent x v (λ j lt. absent (suc j) (omega arith)) in
    let here : y ≢ x = absent 0 (omega arith) in ground (arith, rest, here)
