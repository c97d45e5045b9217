-- ===== src/Base/Windows.antt =====
-- Indices that go round an array of `n` places.
use Prim.Native.Nat.{ℕ, ◌+◌, ◌*◌, ◌/◌, ◌%◌, ◌≤◌, ◌<◌}
use mathlib.Core.Path.{◌≡◌, ap}
use mathlib.Core.Logic.{◌≢◌}
use native.Mathlib.Nat.{div-add-mod, mul-le-mul_left}
use native.Mathlib.Omega.{arith}

same_round : (n a b : ℕ) → a % n ≡ b % n → a < b + n → b < a + n → a / n ≡ b / n
same_round n a b e ab ba = grind (arith, div-add-mod, mul-le-mul_left)

-- Two numbers that are less than `n` apart share a place only if they are equal.
pub eq_of_mod-eq : (n a b : ℕ) → a % n ≡ b % n → a < b + n → b < a + n → a ≡ b
eq_of_mod-eq n a b e ab ba =
    omega
      (arith, div-add-mod a n, div-add-mod b n, ap (λ (q : ℕ). n * q) (same_round n a b e ab ba))

-- Neighbours do not share a place.
pub suc-mod-ne : (n a : ℕ) → 2 ≤ n → (a + 1) % n ≢ a % n
suc-mod-ne n a h e = omega (arith, eq_of_mod-eq n (a + 1) a e (omega arith) (omega arith))
