-- ===== src/Base/Masks.antt =====
-- One bit set, cleared and found in a word.
use Prim.Native.Nat.{ℕ, zero, suc, ◌-◌, ◌/◌, ◌%◌, ◌^◌, ◌≤◌, ◌<◌, bit_and, bit_or, bit_and-bitwise}
use mathlib.Core.Path.{◌≡◌, refl}
use mathlib.Core.Logic.{◌≢◌}
use native.Mathlib.Nat.{pow-suc, pow-le-pow_right}
use native.Mathlib.Omega.{arith}
use mpmc_queues.Base.Bits.{
  digit, digit-le, digit-bit_and, digit-bit_or, bit_or_step, bit_and_step, bit_or-zero,
}
use mpmc_queues.Base.Powers.{two-pow-pos}

pub digit-zero : (a : ℕ) → digit a 0 ≡ a % 2
unfolding digit
digit-zero a = refl

pub digit-suc : (a i : ℕ) → digit a (suc i) ≡ digit (a / 2) i
unfolding digit
digit-suc a i = refl

pub digit_zero : (i : ℕ) → digit 0 i ≡ 0
unfolding digit
digit_zero zero = refl
digit_zero (suc i) = digit_zero i

pub digit-pow_self : (b : ℕ) → digit (2 ^ b) b ≡ 1
unfolding digit
digit-pow_self zero = refl
digit-pow_self (suc b) =
    let h : 2 ^ suc b / 2 ≡ 2 ^ b = omega (arith, pow-suc 2 b) in rw h (digit-pow_self b)

pub digit-pow_other : (b i : ℕ) → i ≢ b → digit (2 ^ b) i ≡ 0
unfolding digit
digit-pow_other zero zero ne = absurd (ne refl)
digit-pow_other zero (suc i) ne = digit_zero i
digit-pow_other (suc b) zero ne = omega (arith, pow-suc 2 b)
digit-pow_other (suc b) (suc i) ne =
    let h : 2 ^ suc b / 2 ≡ 2 ^ b = omega (arith, pow-suc 2 b) in
    rw h (digit-pow_other b i (omega arith))

-- The low `w` bits of `2 ^ w - 1` are 1.
pub digit_full : (w i : ℕ) → i < w → digit (2 ^ w - 1) i ≡ 1
unfolding digit
digit_full zero i lt = absurd (omega arith)
digit_full (suc w) zero lt = omega (arith, pow-suc 2 w, two-pow-pos w)
digit_full (suc w) (suc i) lt =
    let h : (2 ^ suc w - 1) / 2 ≡ 2 ^ w - 1 = omega (arith, pow-suc 2 w, two-pow-pos w) in
    rw h (digit_full w i (omega arith))

-- `~(1 << b)` at `w` bits has one 0.
hole_self : (w b : ℕ) → b < w → digit (2 ^ w - 1 - 2 ^ b) b ≡ 0
unfolding digit
hole_self zero b lt = absurd (omega arith)
hole_self (suc w) zero lt = omega (arith, pow-suc 2 w, two-pow-pos w)
hole_self (suc w) (suc b) lt =
    let h : (2 ^ suc w - 1 - 2 ^ suc b) / 2 ≡ 2 ^ w - 1 - 2 ^ b =
      omega (arith, pow-suc 2 w, pow-suc 2 b) in
    rw h (hole_self w b (omega arith))

hole_other : (w b i : ℕ) → b < w → i < w → i ≢ b → digit (2 ^ w - 1 - 2 ^ b) i ≡ 1
unfolding digit
hole_other zero b i lb li ne = absurd (omega arith)
hole_other (suc w) zero zero lb li ne = absurd (ne refl)
hole_other (suc w) zero (suc i) lb li ne =
    let h : (2 ^ suc w - 1 - 1) / 2 ≡ 2 ^ w - 1 = omega (arith, pow-suc 2 w, two-pow-pos w) in
    rw h (digit_full w i (omega arith))
hole_other (suc w) (suc b) zero lb li ne =
    let le : b < w = omega arith in
    omega
      (arith, pow-suc 2 w, pow-suc 2 b, pow-le-pow_right {n = 2} (omega arith) le, two-pow-pos b)
hole_other (suc w) (suc b) (suc i) lb li ne =
    let h : (2 ^ suc w - 1 - 2 ^ suc b) / 2 ≡ 2 ^ w - 1 - 2 ^ b =
      omega (arith, pow-suc 2 w, pow-suc 2 b) in
    rw h (hole_other w b i (omega arith) (omega arith) (omega arith))

-- `x & ~(1 << b)`
pub clear_bit_self : (w b x : ℕ) → b < w → digit (bit_and x (2 ^ w - 1 - 2 ^ b)) b ≡ 0
clear_bit_self w b x lt = omega (arith, digit-bit_and x (2 ^ w - 1 - 2 ^ b) b, hole_self w b lt)

pub clear_bit_other :
    (w b x i : ℕ) → b < w → i < w → i ≢ b → digit (bit_and x (2 ^ w - 1 - 2 ^ b)) i ≡ digit x i
clear_bit_other w b x i lb li ne =
    omega (arith, digit-bit_and x (2 ^ w - 1 - 2 ^ b) i, hole_other w b i lb li ne, digit-le x i)

-- `x | (1 << b)`
pub set_bit_self : (b x : ℕ) → digit (bit_or x (2 ^ b)) b ≡ 1
set_bit_self b x = omega (arith, digit-bit_or x (2 ^ b) b, digit-pow_self b, digit-le x b)

pub set_bit_other : (b x i : ℕ) → i ≢ b → digit (bit_or x (2 ^ b)) i ≡ digit x i
set_bit_other b x i ne = omega (arith, digit-bit_or x (2 ^ b) i, digit-pow_other b i ne)

-- Both operations keep to the width.
pub bit_or-lt : (k a b : ℕ) → a < 2 ^ k → b < 2 ^ k → bit_or a b < 2 ^ k
bit_or-lt zero zero zero h g = omega (arith, bit_or-zero 0)
bit_or-lt zero (suc a) b h g = absurd (omega arith)
bit_or-lt zero zero (suc b) h g = absurd (omega arith)
bit_or-lt (suc k) a b h g = omega (
  arith,
  bit_or_step a b,
  pow-suc 2 k,
  bit_or-lt k (a / 2) (b / 2) (omega (arith, pow-suc 2 k)) (omega (arith, pow-suc 2 k)),
)

pub bit_and-le : (n a b : ℕ) → a ≤ n → bit_and a b ≤ a
bit_and-le zero zero b h = omega (arith, bit_and-bitwise 0 b)
bit_and-le zero (suc a) b h = absurd (omega arith)
bit_and-le (suc n) zero b h = omega (arith, bit_and-bitwise 0 b)
bit_and-le (suc n) (suc a) b h =
    omega (arith, bit_and_step (suc a) b, bit_and-le n (suc a / 2) (b / 2) (omega arith))

-- A word is its digits.
pub digit_ext :
    (w a b : ℕ) → a < 2 ^ w → b < 2 ^ w → ((i : ℕ) → i < w → digit a i ≡ digit b i) → a ≡ b
unfolding digit
digit_ext zero a b la lb same = omega arith
digit_ext (suc w) a b la lb same =
    let rest : a / 2 ≡ b / 2 =
      digit_ext w (a / 2) (b / 2) (omega (arith, pow-suc 2 w)) (omega (arith, pow-suc 2 w))
        (λ i l. same (suc i) (omega arith)) in
    omega (arith, rest, same 0 (omega arith))

pub bit_and_comm : (n a b : ℕ) → a ≤ n → b ≤ n → bit_and a b ≡ bit_and b a
bit_and_comm zero zero zero la lb = refl
bit_and_comm zero (suc a) b la lb = absurd (omega arith)
bit_and_comm zero zero (suc b) la lb = absurd (omega arith)
bit_and_comm (suc n) a b la lb = omega (
  arith,
  bit_and_step a b,
  bit_and_step b a,
  bit_and_comm n (a / 2) (b / 2) (omega arith) (omega arith),
)
