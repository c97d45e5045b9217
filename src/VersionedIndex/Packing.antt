-- ===== src/VersionedIndex/Packing.antt =====
-- The two fields of a `VersionedIndex` do not disturb each other.
use native.Mathlib.Nat.{
  pow-le-pow_right, mod-eq_of_lt, mod-lt, mod_self, div-add-mod', div-lt_iff_lt-mul, div-eq_of_lt,
}
use mpmc_queues.Base.{
  ℕ, ◌+◌, ◌-◌, ◌*◌, ◌/◌, ◌%◌, ◌^◌, ◌≤◌, ◌<◌, ◌≡◌, ◌≢◌, refl, sym, ap, ◌∙◌, arith, false, not, ◌==◌,
  some, bit_and, bit_or-fields, bit_and-low, bit_and-high, le→ltb, two-pow-pos, two-pow-add,
  field_parts, add_fields-lt, dec_lt,
}
use mpmc_queues.Bit.Log.{bit_width_bounds}
use mpmc_queues.VersionedIndex.{
  index_bits, version_bits, version_mask, make, index, version, set_index, set_version,
  advance_version,
}

module _ (capacity : ℕ) (pos : capacity ≢ 0) (small : capacity < 2 ^ 62) where
  k : ℕ
  k = index_bits capacity

  narrow : k < 64
  unfolding k
  narrow = elim (dec_lt k 64) [
    | yes y ↦ y
    | no n ↦
        let (_, lo) = bit_width_bounds capacity (omega arith) in
        let le : 64 ≤ k = omega arith in
        absurd (omega (arith, lo pos, pow-le-pow_right {n = 2} (omega arith) le))
  ]

  holds : (idx : ℕ) → idx ≤ capacity → idx < 2 ^ k
  unfolding k
  holds idx le = let (hi, _) = bit_width_bounds capacity (omega arith) in omega arith

  whole : 2 ^ 64 ≡ 2 ^ (64 - k) * 2 ^ k
  whole =
      let e : 64 ≡ 64 - k + k = omega (arith, narrow) in
      ap (λ (n : ℕ). 2 ^ n) e ∙ two-pow-add (64 - k) k

  joined : (ver idx : ℕ) → ver < 2 ^ (64 - k) → idx < 2 ^ k → ver * 2 ^ k + idx < 2 ^ 64
  joined ver idx hv hi =
      let e : 64 - k + k ≡ 64 = omega (arith, narrow) in
      rw e at (add_fields-lt (64 - k) k ver idx hv hi)

  parts :
      (ver idx : ℕ)
      → idx < 2 ^ k
      → (index capacity (ver * 2 ^ k + idx) ≡ idx) × (version capacity (ver * 2 ^ k + idx) ≡ ver)
  unfolding index version k
  parts ver idx hi =
      let (q, r) = field_parts k ver idx hi in (bit_and-low (ver * 2 ^ k + idx) k ∙ r, q)

  cut : (raw : ℕ) → raw ≡ version capacity raw * 2 ^ k + index capacity raw
  unfolding index version k
  cut raw =
      sym (div-add-mod' raw (2 ^ k))
      ∙ ap (λ (r : ℕ). raw / 2 ^ k * 2 ^ k + r) (sym (bit_and-low raw k))

  index-lt : (raw : ℕ) → index capacity raw < 2 ^ k
  unfolding index k
  index-lt raw = rw (bit_and-low raw k) (mod-lt raw (two-pow-pos k))

  version-lt : (raw : ℕ) → raw < 2 ^ 64 → version capacity raw < 2 ^ (64 - k)
  unfolding version k
  version-lt raw lt = (div-lt_iff_lt-mul (two-pow-pos k)).1 (omega (arith, whole))

  fits : (ver : ℕ) → ver < 2 ^ (64 - k) → (not (ver / 2 ^ version_bits capacity == 0)) ≡ false
  unfolding k
  fits ver lt = rw (div-eq_of_lt lt) refl

  mask : version_mask capacity ≡ 2 ^ 64 - 2 ^ k
  unfolding k
  mask = omega (arith, two-pow-pos k)

  make-eq :
      (ver idx : ℕ)
      → ver < 2 ^ (64 - k)
      → idx ≤ capacity
      → make capacity ver idx ≡ some (ver * 2 ^ k + idx)
  unfolding make k
  make-eq ver idx hv hi =
      let shift : ver * 2 ^ k % 2 ^ 64 ≡ ver * 2 ^ k =
        mod-eq_of_lt (omega (arith, joined ver 0 hv (two-pow-pos k))) in
      let low : bit_and idx (2 ^ k - 1) ≡ idx = bit_and-low idx k ∙ mod-eq_of_lt (holds idx hi) in
      rw (le→ltb capacity idx hi, fits ver hv, shift, low, bit_or-fields ver idx k (holds idx hi))
        refl

  set_index-eq :
      (idx raw : ℕ)
      → raw < 2 ^ 64
      → idx ≤ capacity
      → set_index capacity idx raw ≡ some (version capacity raw * 2 ^ k + idx)
  unfolding set_index version k
  set_index-eq idx raw lt hi =
      let low : bit_and idx (2 ^ k - 1) ≡ idx = bit_and-low idx k ∙ mod-eq_of_lt (holds idx hi) in
      let high : bit_and raw (2 ^ 64 - 2 ^ k) ≡ raw / 2 ^ k * 2 ^ k =
        bit_and-high raw 64 k lt (omega (arith, narrow)) in
      rw (le→ltb capacity idx hi, mask, high, low, bit_or-fields (raw / 2 ^ k) idx k (holds idx hi))
        refl

  set_version-eq :
      (ver raw : ℕ)
      → ver < 2 ^ (64 - k)
      → set_version capacity ver raw ≡ some (ver * 2 ^ k + index capacity raw)
  unfolding set_version index k
  set_version-eq ver raw hv =
      let base : ver * 2 ^ k < 2 ^ 64 = omega (arith, joined ver 0 hv (two-pow-pos k)) in
      let shift : ver * 2 ^ k % 2 ^ 64 ≡ ver * 2 ^ k = mod-eq_of_lt base in
      let (q, r) = field_parts k ver 0 (two-pow-pos k) in
      let plus : ver * 2 ^ k + 0 ≡ ver * 2 ^ k = omega arith in
      let q' : ver * 2 ^ k / 2 ^ k ≡ ver = rw plus at q in
      let high : bit_and (ver * 2 ^ k) (2 ^ 64 - 2 ^ k) ≡ ver * 2 ^ k =
        bit_and-high (ver * 2 ^ k) 64 k base (omega (arith, narrow))
        ∙ ap (λ (v : ℕ). v * 2 ^ k) q' in
      rw
        (
          fits ver hv,
          shift,
          mask,
          high,
          bit_or-fields ver (bit_and raw (2 ^ k - 1)) k (index-lt raw),
        )
        refl

  advance_version-eq :
      (raw : ℕ)
      → raw < 2 ^ 64
      → advance_version capacity raw
        ≡ (version capacity raw + 1) % 2 ^ (64 - k) * 2 ^ k + index capacity raw
  unfolding advance_version k
  advance_version-eq raw lt =
      let q = version capacity raw in
      let i = index capacity raw in
      let sum : raw + 2 ^ k ≡ (q + 1) * 2 ^ k + i = grind (arith, cut raw) in
      elim (dec_lt (q + 1) (2 ^ (64 - k))) [
        | yes more ↦
            rw (sum, mod-eq_of_lt more) (mod-eq_of_lt (joined (q + 1) i more (index-lt raw)))
        | no last ↦
            let top : q + 1 ≡ 2 ^ (64 - k) = omega (arith, version-lt raw lt) in
            let wrap : 2 ^ (64 - k) % 2 ^ (64 - k) ≡ 0 = mod_self (2 ^ (64 - k)) in
            let word : i < 2 ^ 64 =
              omega (arith, index-lt raw, joined 0 i (two-pow-pos (64 - k)) (index-lt raw)) in
            rw (sum, top, wrap, ← whole) (omega arith)
      ]

  -- Let the capacity be positive and below `2 ^ 62`. The constructor accepts an index up to the
  -- capacity with a version that fits, and both can be read back. `set_index` and `set_version`
  -- change their own field and keep the other. `advance_version` keeps the index and adds one to
  -- the version, which wraps to 0 after the last.
  pub versioned_fields :
      (ver idx raw : ℕ)
      → ver < 2 ^ version_bits capacity
      → idx ≤ capacity
      → raw < 2 ^ 64
      → ((new : ℕ) × (make capacity ver idx ≡ some new)
          × (index capacity new ≡ idx)
          × (version capacity new ≡ ver))
        × ((new : ℕ) × (set_index capacity idx raw ≡ some new)
            × (index capacity new ≡ idx)
            × (version capacity new ≡ version capacity raw))
        × ((new : ℕ) × (set_version capacity ver raw ≡ some new)
            × (index capacity new ≡ index capacity raw)
            × (version capacity new ≡ ver))
        × (index capacity (advance_version capacity raw) ≡ index capacity raw)
        × (version capacity (advance_version capacity raw)
            ≡ (version capacity raw + 1) % 2 ^ version_bits capacity)
  unfolding k
  versioned_fields ver idx raw hv hi lt =
      let q = version capacity raw in
      let next = (q + 1) % 2 ^ (64 - k) in
      (
        (
          _,
          make-eq ver idx hv hi,
          (parts ver idx (holds idx hi)).0,
          (parts ver idx (holds idx hi)).1,
        ),
        (
          _,
          set_index-eq idx raw lt hi,
          (parts q idx (holds idx hi)).0,
          (parts q idx (holds idx hi)).1,
        ),
        (
          _,
          set_version-eq ver raw hv,
          (parts ver (index capacity raw) (index-lt raw)).0,
          (parts ver (index capacity raw) (index-lt raw)).1,
        ),
        ap (index capacity) (advance_version-eq raw lt)
            ∙ (parts next (index capacity raw) (index-lt raw)).0,
        ap (version capacity) (advance_version-eq raw lt)
            ∙ (parts next (index capacity raw) (index-lt raw)).1,
      )
