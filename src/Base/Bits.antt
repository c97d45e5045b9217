-- ===== src/Base/Bits.antt =====
-- The binary digits of `&` and `|`, at every width.
use Prim.Native.Nat.{
  ℕ, zero, suc, ◌+◌, ◌-◌, ◌*◌, ◌/◌, ◌%◌, ◌^◌, ◌≤◌, ◌<◌, min, max, bit_and, bit_or, digits,
  bit_and-bitwise, bit_or-bitwise,
}
use mathlib.Core.Path.{◌≡◌, refl, sym, ap, ◌∙◌}
use native.Mathlib.Nat.{pow-suc, one-le-pow, div-add-mod', mod-lt}
use native.Mathlib.Omega.{arith}

digits_none : (rest : ℕ → ℕ) (op : ℕ → ℕ → ℕ) (rounds y : ℕ) → digits rest op rounds 0 y ≡ rest y
digits_none rest op zero y = refl
digits_none rest op (suc rounds) y = refl

-- Rounds beyond the length of `a` change nothing, whatever the digit operation is.
digits_spare :
    (rest : ℕ → ℕ) (op : ℕ → ℕ → ℕ) (rounds spare x y : ℕ)
    → x ≤ rounds
    → digits rest op (rounds + spare) x y ≡ digits rest op rounds x y
digits_spare rest op zero spare zero y enough =
    let r : 0 + spare ≡ spare = omega arith in rw r (digits_none rest op spare y)
digits_spare rest op zero spare (suc x) y enough = absurd (omega arith)
digits_spare rest op (suc rounds) spare zero y enough =
    let r : suc rounds + spare ≡ suc (rounds + spare) = omega arith in rw r refl
digits_spare rest op (suc rounds) spare (suc x) y enough =
    let r : suc rounds + spare ≡ suc (rounds + spare) = omega arith in
    rw r (
      ap (λ (d : ℕ). d * 2 + op (suc x % 2) (y % 2))
        (digits_spare rest op rounds spare (suc x / 2) (y / 2) (omega arith)))

-- So one digit can be split off.
split_digit :
    (rest : ℕ → ℕ) (op : ℕ → ℕ → ℕ) (x y : ℕ)
    → digits rest op (suc x) (suc x) y
      ≡ digits rest op (suc x / 2) (suc x / 2) (y / 2) * 2 + op (suc x % 2) (y % 2)
split_digit rest op x y =
    let r : x ≡ suc x / 2 + (x - suc x / 2) = omega arith in
    let e : digits rest op x (suc x / 2) (y / 2) ≡ digits rest op (suc x / 2) (suc x / 2) (y / 2) =
      ap (λ (n : ℕ). digits rest op n (suc x / 2) (y / 2)) r
      ∙ digits_spare rest op (suc x / 2) (x - suc x / 2) (suc x / 2) (y / 2) (omega arith) in
    ap (λ (d : ℕ). d * 2 + op (suc x % 2) (y % 2)) e

pub bit_and_step : (x y : ℕ) → bit_and x y ≡ bit_and (x / 2) (y / 2) * 2 + min (x % 2) (y % 2)
bit_and_step zero y = omega (arith, bit_and-bitwise 0 y, bit_and-bitwise 0 (y / 2))
bit_and_step (suc x) y =
    let whole = bit_and-bitwise (suc x) y in
    let half = bit_and-bitwise (suc x / 2) (y / 2) in
    omega (arith, whole, half, split_digit (λ _. zero) min x y)

pub bit_or_step : (x y : ℕ) → bit_or x y ≡ bit_or (x / 2) (y / 2) * 2 + max (x % 2) (y % 2)
bit_or_step zero y = omega (arith, bit_or-bitwise 0 y, bit_or-bitwise 0 (y / 2))
bit_or_step (suc x) y =
    let whole = bit_or-bitwise (suc x) y in
    let half = bit_or-bitwise (suc x / 2) (y / 2) in
    omega (arith, whole, half, split_digit (λ (t : ℕ). t) max x y)

-- The binary digit of weight `2 ^ i`.
unfoldable pub digit : ℕ → ℕ → ℕ
digit a zero = a % 2
digit a (suc i) = digit (a / 2) i

pub digit-le : (a i : ℕ) → digit a i ≤ 1
unfolding digit
digit-le a zero = omega arith
digit-le a (suc i) = digit-le (a / 2) i

pub digit-bit_and : (a b i : ℕ) → digit (bit_and a b) i ≡ min (digit a i) (digit b i)
unfolding digit
digit-bit_and a b zero = omega (arith, bit_and_step a b)
digit-bit_and a b (suc i) =
    let e : bit_and a b / 2 ≡ bit_and (a / 2) (b / 2) = omega (arith, bit_and_step a b) in
    rw e (digit-bit_and (a / 2) (b / 2) i)

pub digit-bit_or : (a b i : ℕ) → digit (bit_or a b) i ≡ max (digit a i) (digit b i)
unfolding digit
digit-bit_or a b zero = omega (arith, bit_or_step a b)
digit-bit_or a b (suc i) =
    let e : bit_or a b / 2 ≡ bit_or (a / 2) (b / 2) = omega (arith, bit_or_step a b) in
    rw e (digit-bit_or (a / 2) (b / 2) i)

pub digit_of_lt : (a i : ℕ) → a < 2 ^ i → digit a i ≡ 0
unfolding digit
digit_of_lt a zero h = omega arith
digit_of_lt a (suc i) h = digit_of_lt (a / 2) i (omega (arith, pow-suc 2 i))

pub digit_top : (a i : ℕ) → 2 ^ i ≤ a → a < 2 ^ suc i → digit a i ≡ 1
unfolding digit
digit_top a zero h k = omega arith
digit_top a (suc i) h k =
    digit_top (a / 2) i (omega (arith, pow-suc 2 i)) (omega (arith, pow-suc 2 i, pow-suc 2 (suc i)))

zero_both : (n a : ℕ) → a ≤ n → (bit_and a 0 ≡ 0) × (bit_or a 0 ≡ a)
zero_both zero a h = ground (arith, bit_and_step 0 0, bit_or_step 0 0)
zero_both (suc n) zero h = ground (arith, bit_and_step 0 0, bit_or_step 0 0)
zero_both (suc n) (suc a) h =
    omega
      (arith, bit_and_step (suc a) 0, bit_or_step (suc a) 0, zero_both n (suc a / 2) (omega arith))

pub bit_and-zero : (a : ℕ) → bit_and a 0 ≡ 0
bit_and-zero a = (zero_both a a (omega arith)).0

pub zero_bit_or : (a : ℕ) → bit_or 0 a ≡ a
zero_bit_or a = omega (arith, bit_or-bitwise 0 a)

pub bit_or-zero : (a : ℕ) → bit_or a 0 ≡ a
bit_or-zero a = (zero_both a a (omega arith)).1

-- `a & 2^i` and `a | 2^i`, by the digit.
pub bit_and-pow : (a i : ℕ) → bit_and a (2 ^ i) ≡ digit a i * 2 ^ i
unfolding digit
bit_and-pow a zero = omega (arith, bit_and_step a 1, bit_and-zero (a / 2))
bit_and-pow a (suc i) =
    grind (arith, bit_and_step a (2 ^ suc i), pow-suc 2 i, bit_and-pow (a / 2) i)

pub bit_or-pow : (a i : ℕ) → bit_or a (2 ^ i) + digit a i * 2 ^ i ≡ a + 2 ^ i
unfolding digit
bit_or-pow a zero = omega (arith, bit_or_step a 1, bit_or-zero (a / 2))
bit_or-pow a (suc i) = grind (arith, bit_or_step a (2 ^ suc i), pow-suc 2 i, bit_or-pow (a / 2) i)

mul-pow-suc : (q k : ℕ) → q * 2 ^ suc k ≡ q * 2 ^ k * 2
mul-pow-suc q k = omega (arith, ap (λ (t : ℕ). q * t) (pow-suc 2 k))

-- `a` is cut at bit `k` into a quotient `q` and a remainder `r`.
low_part : (q r k a : ℕ) → r < 2 ^ k → a ≡ q * 2 ^ k + r → bit_and a (2 ^ k - 1) ≡ r
low_part q r zero a h e = omega (arith, bit_and-zero a)
low_part q r (suc k) a h e =
    let e' : a / 2 ≡ q * 2 ^ k + r / 2 = omega (arith, mul-pow-suc q k) in
    let h' : r / 2 < 2 ^ k = omega (arith, pow-suc 2 k) in
    let d : (2 ^ suc k - 1) / 2 ≡ 2 ^ k - 1 = omega (arith, pow-suc 2 k) in
    let step : bit_and a (2 ^ suc k - 1) ≡ bit_and (a / 2) (2 ^ k - 1) * 2 + a % 2 =
      rw (← d) (omega (arith, bit_and_step a (2 ^ suc k - 1), pow-suc 2 k, one-le-pow k 2)) in
    omega (arith, step, low_part q (r / 2) k (a / 2) h' e', mul-pow-suc q k)

high_part :
    (q r k n a : ℕ)
    → k ≤ n
    → r < 2 ^ k
    → a < 2 ^ n
    → a ≡ q * 2 ^ k + r
    → bit_and a (2 ^ n - 2 ^ k) ≡ q * 2 ^ k
high_part q r zero n a le h lt e = omega (arith, low_part 0 a n a lt (omega arith))
high_part q r (suc k) zero a le h lt e = absurd (omega arith)
high_part q r (suc k) (suc n) a le h lt e =
    let e' : a / 2 ≡ q * 2 ^ k + r / 2 = omega (arith, mul-pow-suc q k) in
    let h' : r / 2 < 2 ^ k = omega (arith, pow-suc 2 k) in
    let lt' : a / 2 < 2 ^ n = omega (arith, pow-suc 2 n) in
    let d : (2 ^ suc n - 2 ^ suc k) / 2 ≡ 2 ^ n - 2 ^ k = omega (arith, pow-suc 2 n, pow-suc 2 k) in
    let step : bit_and a (2 ^ suc n - 2 ^ suc k) ≡ bit_and (a / 2) (2 ^ n - 2 ^ k) * 2 =
      rw (← d) (omega (arith, bit_and_step a (2 ^ suc n - 2 ^ suc k), pow-suc 2 n, pow-suc 2 k)) in
    omega (arith, step, high_part q (r / 2) k n (a / 2) (omega arith) h' lt' e', mul-pow-suc q k)

-- Two fields that do not overlap.
pub bit_or-fields : (q r k : ℕ) → r < 2 ^ k → bit_or (q * 2 ^ k) r ≡ q * 2 ^ k + r
bit_or-fields q zero zero h = omega (arith, bit_or-zero (q * 1))
bit_or-fields q (suc r) zero h = absurd (omega arith)
bit_or-fields q r (suc k) h =
    let d : q * 2 ^ suc k / 2 ≡ q * 2 ^ k = omega (arith, mul-pow-suc q k) in
    let step : bit_or (q * 2 ^ suc k) r ≡ bit_or (q * 2 ^ k) (r / 2) * 2 + r % 2 =
      rw (← d) (omega (arith, bit_or_step (q * 2 ^ suc k) r, mul-pow-suc q k)) in
    omega (arith, step, bit_or-fields q (r / 2) k (omega (arith, pow-suc 2 k)), mul-pow-suc q k)

cut : (a k : ℕ) → a ≡ a / 2 ^ k * 2 ^ k + a % 2 ^ k
cut a k = sym (div-add-mod' a (2 ^ k))

rest-lt : (a k : ℕ) → a % 2 ^ k < 2 ^ k
rest-lt a k = mod-lt a (one-le-pow k 2 (omega arith))

-- A mask of the `k` low bits is the remainder by `2 ^ k`.
pub bit_and-low : (a k : ℕ) → bit_and a (2 ^ k - 1) ≡ a % 2 ^ k
bit_and-low a k = low_part (a / 2 ^ k) (a % 2 ^ k) k a (rest-lt a k) (cut a k)

-- A mask of the bits from `k` up to `n` clears the `k` low bits.
pub bit_and-high : (a n k : ℕ) → a < 2 ^ n → k ≤ n → bit_and a (2 ^ n - 2 ^ k) ≡ a / 2 ^ k * 2 ^ k
bit_and-high a n k h le = high_part (a / 2 ^ k) (a % 2 ^ k) k n a le (rest-lt a k) h (cut a k)
