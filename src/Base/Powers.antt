-- ===== src/Base/Powers.antt =====
-- Powers of two, division by them, and words given by their digits.
use native.Mathlib.Nat.{pow-suc, pow-succ', one-le-pow, div-div-eq-div-mul, mul_assoc, mul-le-mul}
use native.Mathlib.Nat.{mul-add-div_right, div-eq_of_lt, mul-add-mod_self_right, mod-eq_of_lt}
use Prim.Native.Nat.{ℕ, zero, suc, ◌+◌, ◌-◌, ◌*◌, ◌/◌, ◌^◌, ◌%◌, ◌<◌}
use mathlib.Core.Path.{◌≡◌, sym}
use native.Mathlib.Omega.{arith}
use mpmc_queues.Base.Bits.{digit}

pub two-pow-pos : (k : ℕ) → 0 < 2 ^ k
two-pow-pos k = one-le-pow k 2 (omega arith)

pub two-pow-add : (m n : ℕ) → 2 ^ (m + n) ≡ 2 ^ m * 2 ^ n
two-pow-add m zero = grind arith
two-pow-add m (suc n) =
    let e : m + suc n ≡ suc (m + n) = omega arith in
    rw (e, pow-suc, two-pow-add m n, pow-suc 2 n) (mul_assoc (2 ^ m) (2 ^ n) 2)

-- Shifting a word down moves its digits.
pub digit-shift : (a s i : ℕ) → digit (a / 2 ^ s) i ≡ digit a (s + i)
unfolding digit
digit-shift a zero i =
    let e : a / 2 ^ 0 ≡ a = omega arith in let n : 0 + i ≡ i = omega arith in rw (e, n)
digit-shift a (suc s) i =
    let e : a / 2 ^ suc s ≡ a / 2 / 2 ^ s = rw pow-succ' (sym (div-div-eq-div-mul a 2 (2 ^ s))) in
    let n : suc s + i ≡ suc (s + i) = omega arith in rw (e, n) (digit-shift (a / 2) s i)

-- A word whose `k` digits are all 1.
pub ones : (a k : ℕ) → ((i : ℕ) → i < k → digit a i ≡ 1) → a < 2 ^ k → a ≡ 2 ^ k - 1
unfolding digit
ones a zero h lt = omega arith
ones a (suc k) h lt =
    let rest : a / 2 ≡ 2 ^ k - 1 =
      ones (a / 2) k (λ i l. h (suc i) (omega arith)) (omega (arith, pow-suc 2 k)) in
    omega (arith, rest, h 0 (omega arith), pow-suc 2 k, two-pow-pos k)

-- A word with no digit from `k` on is below `2 ^ k`.
pub lt_of_digits : (n a k : ℕ) → a < 2 ^ n → ((i : ℕ) → digit a (k + i) ≡ 0) → a < 2 ^ k
unfolding digit
lt_of_digits zero a k lt h = omega (arith, two-pow-pos k)
lt_of_digits (suc n) a zero lt h =
    let shift : (i : ℕ) → digit (a / 2) (0 + i) ≡ 0 =
      λ i. let e : 0 + suc i ≡ suc (0 + i) = omega arith in rw e at (h (suc i)) in
    let rest : a / 2 < 2 ^ 0 = lt_of_digits n (a / 2) zero (omega (arith, pow-suc 2 n)) shift in
    omega (arith, rest, h 0)
lt_of_digits (suc n) a (suc k) lt h =
    let shift : (i : ℕ) → digit (a / 2) (k + i) ≡ 0 =
      λ i. let e : suc k + i ≡ suc (k + i) = omega arith in rw e at (h i) in
    let rest : a / 2 < 2 ^ k = lt_of_digits n (a / 2) k (omega (arith, pow-suc 2 n)) shift in
    omega (arith, rest, pow-suc 2 k)

-- A word made of a field above bit `k` and one below it.
pub add_fields-lt : (m k q r : ℕ) → q < 2 ^ m → r < 2 ^ k → q * 2 ^ k + r < 2 ^ (m + k)
add_fields-lt m k q r h l = rw two-pow-add (grind (arith, mul-le-mul))

pub field_parts :
    (k q r : ℕ) → r < 2 ^ k → ((q * 2 ^ k + r) / 2 ^ k ≡ q) × ((q * 2 ^ k + r) % 2 ^ k ≡ r)
field_parts k q r l = (
  rw (mul-add-div_right (two-pow-pos k), div-eq_of_lt l) (omega arith),
  rw mul-add-mod_self_right (mod-eq_of_lt l),
)
