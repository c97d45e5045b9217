-- ===== src/CasLoop/Inv/Start.antt =====
-- The invariant holds after the constructor.
use native.Mathlib.Nat.{mod-eq_of_lt}
use mpmc_queues.Base.{
  ℕ, zero, suc, ◌+◌, ◌%◌, ◌^◌, ◌≤◌, ◌<◌, ◌≡◌, ◌≢◌, refl, ap, ◌∙◌, Bool, true, false, inl, inr, some,
  arith, Bool-cases, ◌==◌, update_self, update_ne, ne→==, bit_and-low, eq_of_mod-eq, ℕ_discrete,
}
use mpmc_queues.Bit.{is_pow2}
use mpmc_queues.Bit.Pow2.{is_pow2_sound, next_pow2_least}
use mpmc_queues.CasLoop.{
  Ring, Shared, Cell, slot, real_size, make_ring, init_cells, init_slots, construct, blank,
}
use mpmc_queues.CasLoop.System.{begin}
use mpmc_queues.CasLoop.Inv.Defs.{IsRing, Inv}

-- With the option `Pow2Size` the size is a power of two.
real_size-pow2 : (size : ℕ) → size ≢ 0 → size ≤ 2 ^ 63 → (k : ℕ) × (real_size true size ≡ 2 ^ k)
unfolding real_size
real_size-pow2 size h le = elim (Bool-cases (is_pow2 size)) [
  | inl pow ↦ let (k, e) = is_pow2_sound size pow in (k, rw pow e)
  | inr other ↦ let (k, e, lo, hi) = next_pow2_least 63 size h le in (k, rw other e)
]

slot-make_ring :
    (linked : Bool) (size : ℕ)
    → size ≢ 0
    → size ≤ 2 ^ 63
    → 2 ≤ real_size true size
    → (i : ℕ) → slot (make_ring true linked size) i ≡ i % real_size true size
unfolding slot make_ring
slot-make_ring linked size h le two i =
    let (k, e) = real_size-pow2 size h le in
    let big : (real_size true size == 1) ≡ false = ne→== _ _ (omega arith) in
    rw (big, e) (bit_and-low i k)

pub make_ring-IsRing :
    (pow2 linked : Bool) (size : ℕ)
    → size ≢ 0
    → size ≤ 2 ^ 63
    → 2 ≤ (make_ring pow2 linked size).size
    → IsRing (make_ring pow2 linked size)
unfolding make_ring
make_ring-IsRing false linked size h le two = record {
  two = two;
  slot_lem = λ i. unfold slot in refl;
}
make_ring-IsRing true linked size h le two = record {
  two = two;
  slot_lem = slot-make_ring linked size h le two;
}

module _ (r : Ring) (ring : IsRing r) where
  init_cells_out :
      (n i x : ℕ) (cells : ℕ → Cell)
      → ((u : ℕ) → i ≤ u → u < i + n → u % r.size ≢ x)
      → init_cells r n i cells x ≡ cells x
  unfolding init_cells
  init_cells_out zero i x cells h = refl
  init_cells_out (suc n) i x cells h =
      init_cells_out n (i + 1) x _ (λ u a b. h u (omega arith) (omega arith))
      ∙ rw ring.slot_lem (update_ne cells (i % r.size) x _ (h i (omega arith) (omega arith)))

  pub init_cells_in :
      (n i t : ℕ) (cells : ℕ → Cell)
      → n ≤ r.size
      → i ≤ t
      → t < i + n
      → init_cells r n i cells (t % r.size) ≡ record { val = 0; seq = t }
  unfolding init_cells
  init_cells_in zero i t cells le a b = absurd (omega arith)
  init_cells_in (suc n) i t cells le a b = elim (ℕ_discrete i t) [
    | yes here ↦
        rw (ring.slot_lem, here)
          (init_cells_out n (t + 1) (t % r.size) _ (λ u l m e.
              absurd (omega (arith, eq_of_mod-eq r.size u t e (omega arith) (omega arith))))
            ∙ update_self cells (t % r.size) _)
    | no later ↦ init_cells_in n (i + 1) t _ (omega arith) (omega arith) (omega arith)
  ]

  -- No ticket is out, and each cell waits for its first one.
  pub begin-Inv : (start : ℕ) → start < 2 ^ 63 → Inv r start (begin (init_slots r start))
  unfolding begin init_slots
  begin-Inv start lt =
      let e : start % 2 ^ 63 ≡ start = mod-eq_of_lt lt in
      record {
        ok = record {
          order = omega arith;
          room = omega arith;
          word = omega arith;
          open_unless = λ _. lt;
          few = omega arith;
          filled = λ t a b. absurd (omega arith);
          vacant = λ t a b. inl (
              ap (λ (x : Cell). x.seq)
                (init_cells_in r.size start t blank (omega arith) (omega arith) (omega arith)));
        };
        allowed = λ i. tt;
        fresh = λ i. tt;
        one_put = λ i j t a b. absurd (cc);
        one_take = λ i j t a b. absurd (cc);
      }

-- A ring that the constructor returns satisfies the invariant, if it has two cells or more.
pub construct-Inv :
    (pow2 linked : Bool) (size start : ℕ) {r : Ring} {m : Shared}
    → size ≢ 0
    → size ≤ 2 ^ 63
    → start < 2 ^ 63
    → construct pow2 linked size start ≡ some (r, m)
    → 2 ≤ r.size
    → IsRing r × Inv r start (begin m)
unfolding construct
construct-Inv pow2 linked size start {r} {m} h le lt e two =
    let r' = make_ring pow2 linked size in
    let er : r' ≡ r = ground arith in
    let em : init_slots r' start ≡ m = ground arith in
    let two' : 2 ≤ r'.size = rw er two in
    let ring : IsRing r' = make_ring-IsRing pow2 linked size h le two' in
    rw (← em, ← er) (ring, begin-Inv r' ring start lt)

pub construct-start :
    (pow2 linked : Bool) (size start : ℕ) {r : Ring} {m : Shared}
    → construct pow2 linked size start ≡ some (r, m)
    → (m.head ≡ start) × (m.tail ≡ start)
unfolding construct init_slots
construct-start pow2 linked size start {r} {m} e =
    let em : init_slots (make_ring pow2 linked size) start ≡ m = ground arith in
    rw (← em) (refl, refl)
