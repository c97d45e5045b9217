-- ===== src/Bit/Fields.antt =====
-- `merge`, `split`, `keep_high` and `keep_low` of include/util/bit.hpp against one another.
use native.Mathlib.Nat.{pow-le-pow_right, mod-eq_of_lt, div-lt_iff_lt-mul}
use native.Mathlib.Nat.{div-add-mod', mod-lt}
use mpmc_queues.Base.{
  ℕ, ◌+◌, ◌*◌, ◌/◌, ◌%◌, ◌^◌, ◌≤◌, ◌<◌, ◌≡◌, ◌∙◌, arith, bit_or-fields, two-pow-add, two-pow-pos,
  lt→ltb, add_fields-lt, field_parts,
}
use mpmc_queues.Bit.{merge, split, keep_high, keep_low}

module _ (w out high low : ℕ) (wide : w + w ≤ out) (h : high < 2 ^ w) (l : low < 2 ^ w) where
  pub merge-eq : merge out w high low ≡ high * 2 ^ w + low
  unfolding merge
  merge-eq =
      let fits : high * 2 ^ w < 2 ^ out = omega (
        arith,
        add_fields-lt w w high 0 h (two-pow-pos w),
        pow-le-pow_right {n = 2} (omega arith) wide,
      ) in
      rw (mod-eq_of_lt fits) (bit_or-fields high low w l)

  -- What `merge` packs, `split` takes apart, provided that `OutT` has twice the bits and some.
  split-merge : 0 < w → split out w (merge out w high low) ≡ (high, low)
  unfolding split
  split-merge pos =
      let (q, r) = field_parts w high low l in
      rw (lt→ltb w out (omega arith), merge-eq, q, r, mod-eq_of_lt h)

  -- The accessors read the two halves.
  pub keep-merge :
      (keep_high w (merge out w high low) ≡ high) × (keep_low w (merge out w high low) ≡ low)
  unfolding keep_high keep_low
  keep-merge =
      let (q, r) = field_parts w high low l in (rw (merge-eq, q, mod-eq_of_lt h), rw (merge-eq, r))

-- The other way: a word of twice the width is its two halves merged.
merge-split :
    (w value : ℕ)
    → 0 < w
    → value < 2 ^ (w + w)
    → merge (w + w) w (split (w + w) w value).0 (split (w + w) w value).1 ≡ value
unfolding split
merge-split w value pos lt =
    let high : value / 2 ^ w < 2 ^ w =
      (div-lt_iff_lt-mul (two-pow-pos w)).1 (omega (arith, two-pow-add w w)) in
    let low : value % 2 ^ w < 2 ^ w = mod-lt value (two-pow-pos w) in
    rw (lt→ltb w (w + w) (omega arith), mod-eq_of_lt high)
      (merge-eq w (w + w) (value / 2 ^ w) (value % 2 ^ w) (omega arith) high low
        ∙ div-add-mod' value (2 ^ w))
