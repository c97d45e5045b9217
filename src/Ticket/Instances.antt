-- ===== src/Ticket/Instances.antt =====
-- The instance ids of `DynamicThreadTicket`: `instance_bitmap_` has a 1 for each free id.
use mpmc_queues.Base.{
  ℕ, ◌-◌, ◌^◌, ◌≤◌, ◌<◌, ◌≡◌, ◌≢◌, sym, ◌∙◌, arith, ◌==◌, leb, lt→leb, Option, none, some,
  ℕ_discrete, dec_lt, ne→==, digit, bit_and, bit_or, digit_ext, digit_of_lt, clear_bit_self,
  clear_bit_other, set_bit_self, set_bit_other, bit_or-lt, bit_and-le, if◌then◌else◌,
}
use native.Mathlib.Nat.{pow-le-pow_right}
use mpmc_queues.Ticket.{count_trailing_zeros, claim}
use mpmc_queues.Ticket.Words.{ctz_lem}

-- `MaxInstances` at the default of `DTT_MAX_INSTANCES`.
abbrev pub max_instances : ℕ
max_instances = 16

-- A round of the loop whose exchange succeeds: the id and the bitmap after it. `none` is
-- `std::runtime_error`.
unfoldable pub allocate_instance_id : (bitmap : ℕ) → Option (ℕ × ℕ)
allocate_instance_id bitmap =
    if bitmap == 0 then none else some (count_trailing_zeros bitmap, claim bitmap)

unfoldable pub free_instance_id : (id bitmap : ℕ) → ℕ
free_instance_id id bitmap = if leb max_instances id then bitmap else bit_or bitmap (2 ^ id)

module _ (x c : ℕ) (word : x < 2 ^ 64) (lt : c < 64) (one : digit x c ≡ 1) where
  restored : bit_or (bit_and x (2 ^ 64 - 1 - 2 ^ c)) (2 ^ c) ≡ x
  restored =
      let cleared = bit_and x (2 ^ 64 - 1 - 2 ^ c) in
      let le : c ≤ 63 = omega arith in
      digit_ext 64 _ x
        (bit_or-lt 64 cleared (2 ^ c)
          (omega (arith, bit_and-le x x (2 ^ 64 - 1 - 2 ^ c) (omega arith)))
          (omega (arith, pow-le-pow_right {n = 2} (omega arith) le)))
        word
        (λ i li. elim (ℕ_discrete i c) [
          | yes e ↦ rw e (set_bit_self c cleared ∙ sym one)
          | no ne ↦ set_bit_other c cleared i ne ∙ clear_bit_other 64 c x i lt li ne
        ])

-- Let some of the sixteen ids be free. The allocation takes the least free id, which is no longer
-- free, and giving it back restores the bitmap.
free-allocate :
    (bitmap : ℕ)
    → bitmap ≢ 0
    → bitmap < 2 ^ max_instances
    → let id = count_trailing_zeros bitmap in
      (allocate_instance_id bitmap ≡ some (id, claim bitmap))
      × (digit bitmap id ≡ 1)
      × ((i : ℕ) → i < id → digit bitmap i ≡ 0)
      × (digit (claim bitmap) id ≡ 0)
      × (free_instance_id id (claim bitmap) ≡ bitmap)
unfolding allocate_instance_id free_instance_id claim
free-allocate bitmap ne lt =
    let word : bitmap < 2 ^ 64 = omega arith in
    let (l, one, zeros) = ctz_lem bitmap ne word in
    let id = count_trailing_zeros bitmap in
    let in_range : id < max_instances = elim (dec_lt id max_instances) [
      | yes y ↦ y
      | no far ↦
          let le : max_instances ≤ id = omega arith in
          absurd (
            omega (
              arith,
              one,
              digit_of_lt bitmap id (omega (arith, pow-le-pow_right {n = 2} (omega arith) le)),
            ))
    ] in
    (
      rw (ne→== bitmap 0 ne),
      one,
      zeros,
      clear_bit_self 64 id bitmap l,
      rw (lt→leb max_instances id in_range) (restored bitmap id word l one),
    )
