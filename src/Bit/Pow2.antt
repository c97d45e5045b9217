-- ===== src/Bit/Pow2.antt =====
-- `is_pow2` and `next_pow2` of include/util/bit.hpp.
use native.Mathlib.Nat.{pow-suc, mod-eq_of_lt, pow-le-pow_right, div-le_self}
use mpmc_queues.Base.{
  ℕ, zero, suc, ◌+◌, ◌-◌, ◌*◌, ◌/◌, ◌%◌, ◌^◌, ◌≤◌, ◌<◌, max, ◌≡◌, ◌≢◌, true, Bool-cases, inl, inr,
  ◌==◌, ltb, arith, bit_and, bit_or, bit_and_step, digit, digit-bit_or, digit-shift, digit-le,
  digit_top, ones, two-pow-pos, bit_and-zero, bit_or-lt, leb, ne→==, ap,
}
use mpmc_queues.Bit.{is_pow2, smear, next_pow2, log2}
use mpmc_queues.Bit.Log.{log2_bounds}

bit_and_self : (n a : ℕ) → a ≤ n → bit_and a a ≡ a
bit_and_self n zero h = bit_and-zero 0
bit_and_self zero (suc a) h = absurd (omega arith)
bit_and_self (suc n) (suc a) h =
    omega (arith, bit_and_step (suc a) (suc a), bit_and_self n (suc a / 2) (omega arith))

-- `n & (n - 1)` loses exactly the lowest 1.
and_pred_even : (m : ℕ) → m ≢ 0 → bit_and (m * 2) (m * 2 - 1) ≡ bit_and m (m - 1) * 2
and_pred_even m h =
    let a : m * 2 / 2 ≡ m = omega arith in
    let b : (m * 2 - 1) / 2 ≡ m - 1 = omega arith in
    let s : bit_and (m * 2) (m * 2 - 1) ≡ bit_and (m * 2 / 2) ((m * 2 - 1) / 2) * 2 =
      omega (arith, bit_and_step (m * 2) (m * 2 - 1)) in
    rw (s, a, b)

and_pred_odd : (m : ℕ) → bit_and (m * 2 + 1) (m * 2 + 1 - 1) ≡ m * 2
and_pred_odd m =
    let a : (m * 2 + 1) / 2 ≡ m = omega arith in
    let b : (m * 2 + 1 - 1) / 2 ≡ m = omega arith in
    let s : bit_and (m * 2 + 1) (m * 2 + 1 - 1)
        ≡ bit_and ((m * 2 + 1) / 2) ((m * 2 + 1 - 1) / 2) * 2 =
      omega (arith, bit_and_step (m * 2 + 1) (m * 2 + 1 - 1)) in
    rw (s, a, b, bit_and_self m m (omega arith))

pow_of_and_zero : (f n : ℕ) → n ≤ f → n ≢ 0 → bit_and n (n - 1) ≡ 0 → (k : ℕ) × (n ≡ 2 ^ k)
pow_of_and_zero zero n le h e = absurd (omega arith)
pow_of_and_zero (suc f) n le h e = elim (Bool-cases (n % 2 == 0)) [
  | inl even ↦
      let n' : n ≡ n / 2 * 2 = ground arith in
      let e' : bit_and (n / 2) (n / 2 - 1) ≡ 0 =
        omega (arith, and_pred_even (n / 2) (omega arith), rw n' at e) in
      let (k, p) = pow_of_and_zero f (n / 2) (omega arith) (omega arith) e' in
      (suc k, omega (arith, pow-suc 2 k))
  | inr odd ↦
      let n' : n ≡ n / 2 * 2 + 1 = ground arith in
      (0, omega (arith, and_pred_odd (n / 2), rw n' at e))
]

and_zero_of_pow : (k : ℕ) → bit_and (2 ^ k) (2 ^ k - 1) ≡ 0
and_zero_of_pow zero = omega (arith, bit_and-zero 1)
and_zero_of_pow (suc k) =
    rw pow-suc
      (omega (arith, and_pred_even (2 ^ k) (omega (arith, two-pow-pos k)), and_zero_of_pow k))

-- `is_pow2` accepts the powers of two.
pub is_pow2-pow : (k : ℕ) → is_pow2 (2 ^ k) ≡ true
unfolding is_pow2
is_pow2-pow k = ground (arith, two-pow-pos k, and_zero_of_pow k)

-- It accepts nothing else.
pub is_pow2_sound : (n : ℕ) → is_pow2 n ≡ true → (k : ℕ) × (n ≡ 2 ^ k)
unfolding is_pow2
is_pow2_sound n h = pow_of_and_zero n n (omega arith) (ground arith) (ground arith)

-- The `s` highest of the `k` digits are 1.
abbrev TopOnes : (k s n : ℕ) → Type 0
TopOnes k s n = (i : ℕ) → i < k → k ≤ s + i → digit n i ≡ 1

TopOnes-or : (k s n : ℕ) → TopOnes k s n → TopOnes k (s * 2) (bit_or n (n / 2 ^ s))
TopOnes-or k s n h i lt le =
    let e : digit (bit_or n (n / 2 ^ s)) i ≡ max (digit n i) (digit n (s + i)) =
      rw (digit-bit_or, digit-shift) in
    elim (Bool-cases (leb k (s + i))) [
      | inl near ↦ omega (arith, e, h i lt (ground arith), digit-le n (s + i))
      | inr far ↦ omega (arith, e, h (s + i) (ground arith) (ground arith), digit-le n i)
    ]

smear-TopOnes :
    (fuel w s n k : ℕ)
    → k ≤ w
    → w ≤ s + fuel
    → 0 < s
    → n < 2 ^ k
    → TopOnes k s n
    → TopOnes k w (smear fuel w s n) × (smear fuel w s n < 2 ^ k)
unfolding smear
smear-TopOnes zero w s n k kw fuel pos lt h = (λ i l le. h i l (omega arith), lt)
smear-TopOnes (suc fuel) w s n k kw enough pos lt h = elim (Bool-cases (ltb s w)) [
  | inl more ↦ rw more (
      smear-TopOnes fuel w (s * 2) (bit_or n (n / 2 ^ s)) k kw (omega arith) (omega arith)
        (bit_or-lt k n (n / 2 ^ s) lt (omega (arith, div-le_self n (2 ^ s)))) (TopOnes-or k s n h))
  | inr done ↦ rw done (λ i l le. h i l (ground arith), lt)
]

-- Smearing the highest 1 of `n` downwards fills all the digits below it.
smear_fills : (w n k : ℕ) → k < w → 2 ^ k ≤ n → n < 2 ^ suc k → smear w w 1 n ≡ 2 ^ suc k - 1
smear_fills w n k kw lo hi =
    let top : TopOnes (suc k) 1 n =
      λ i lt le. let e : i ≡ k = omega arith in rw e (digit_top n k lo hi) in
    let (full, lt) = smear-TopOnes w w 1 n (suc k) kw (omega arith) (omega arith) hi top in
    ones _ (suc k) (λ i l. full i l (omega arith)) lt

exponent-lt : (j v m : ℕ) → 2 ^ j ≤ m → m < 2 ^ v → j < v
exponent-lt j v m lo hi = elim (Bool-cases (ltb j v)) [
  | inl below ↦ ground arith
  | inr above ↦
      let le : v ≤ j = ground arith in
      absurd (omega (arith, pow-le-pow_right {n = 2} (omega arith) le))
]

-- For `n` from 1 up to the highest power of two of the type, `next_pow2 n` is the least power of two
-- that is at least `n`.
pub next_pow2_least :
    (v n : ℕ)
    → n ≢ 0
    → n ≤ 2 ^ v
    → (k : ℕ) × (next_pow2 (suc v) n ≡ 2 ^ k) × (n ≤ 2 ^ k) × (2 ^ k < 2 * n)
unfolding next_pow2
next_pow2_least v n h le = elim (Bool-cases (is_pow2 n)) [
  | inl pow ↦
      let (k, e) = is_pow2_sound n pow in (k, rw (ne→== n 0 h, pow) e, omega arith, omega arith)
  | inr other ↦
      let ne1 : n ≢ 1 = λ one. cc (is_pow2-pow 0, ap is_pow2 one) in
      let (lo, hi) = log2_bounds v (n - 1) (omega arith) (omega arith) in
      let k = log2 v (n - 1) in
      let kv : k < v = exponent-lt k v (n - 1) lo (omega arith) in
      let full : smear (suc v) (suc v) 1 (n - 1) ≡ 2 ^ suc k - 1 =
        smear_fills (suc v) (n - 1) k (omega arith) lo hi in
      let fits : 2 ^ suc k < 2 ^ suc v =
        omega (arith, pow-le-pow_right {n = 2} (omega arith) kv, pow-suc 2 v, two-pow-pos v) in
      let back : 2 ^ suc k - 1 + 1 ≡ 2 ^ suc k = omega (arith, two-pow-pos (suc k)) in
      (
        suc k,
        rw (ne→== n 0 h, other, full, back) (mod-eq_of_lt fits),
        omega arith,
        omega (arith, pow-suc 2 k),
      )
]

-- `is_pow2` is true exactly of the powers of two.
pub is_pow2_exact :
    (n : ℕ) → (is_pow2 n ≡ true → (k : ℕ) × (n ≡ 2 ^ k)) × ((k : ℕ) → n ≡ 2 ^ k → is_pow2 n ≡ true)
is_pow2_exact n = (is_pow2_sound n, λ k e. rw e (is_pow2-pow k))
