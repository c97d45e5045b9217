-- ===== src/Epoch/Cell.antt =====
-- What the operations of `EpochCell` do to the flag and to the epoch.
use mpmc_queues.Base.{
  ℕ, ◌+◌, ◌-◌, ◌*◌, ◌%◌, ◌^◌, ◌≤◌, ◌<◌, ◌≡◌, refl, ◌∙◌, arith, true, false, none, some, bit_and,
  bit_or, bit_and_comm, bit_or-fields, bit_and-pow, bit_and-low, digit_of_lt, digit_top, digit,
}
use mpmc_queues.Bit.{set_msb}
use mpmc_queues.Bit.Msb.{get_msb-low, get_msb-high}
use mpmc_queues.Epoch.{active_mask, protect, clear, is_active, snapshot}

active : active_mask ≡ 2 ^ 63
unfolding set_msb
active = refl

both_orders : (a b : ℕ) → bit_and a b ≡ bit_and b a
both_orders a b = bit_and_comm (a + b) a b (omega arith) (omega arith)

flag : (word : ℕ) → bit_and (2 ^ 63) word ≡ digit word 63 * 2 ^ 63
flag word = both_orders (2 ^ 63) word ∙ bit_and-pow word 63

rest : (word : ℕ) → bit_and (2 ^ 63 - 1) word ≡ word % 2 ^ 63
rest word = both_orders (2 ^ 63 - 1) word ∙ bit_and-low word 63

-- The two parts of a word.
snapshot-high : (epoch : ℕ) → epoch < 2 ^ 63 → snapshot (2 ^ 63 + epoch) ≡ (true, epoch)
unfolding snapshot
snapshot-high epoch lt =
    let d : digit (2 ^ 63 + epoch) 63 ≡ 1 =
      digit_top (2 ^ 63 + epoch) 63 (omega arith) (omega arith) in
    let e : (2 ^ 63 + epoch) % 2 ^ 63 ≡ epoch = omega arith in
    rw (active, flag (2 ^ 63 + epoch), rest (2 ^ 63 + epoch), d, e) refl

snapshot-low : (epoch : ℕ) → epoch < 2 ^ 63 → snapshot epoch ≡ (false, epoch)
unfolding snapshot
snapshot-low epoch lt =
    let d : digit epoch 63 ≡ 0 = digit_of_lt epoch 63 lt in
    let e : epoch % 2 ^ 63 ≡ epoch = omega arith in rw (active, flag epoch, rest epoch, d, e) refl

clear-eq : (word : ℕ) → clear word ≡ word % 2 ^ 63
unfolding clear
clear-eq word = rw active (bit_and-low word 63)

-- An epoch whose top bit is clear is accepted; the snapshot of the word that `protect` stores shows
-- an active cell with that epoch, and after `clear`, once or twice, an inactive cell with the same
-- epoch. An epoch whose top bit is set fails the assertion. `is_active` agrees with the snapshot.
pub epoch_cell :
    (epoch : ℕ)
    → (epoch < 2 ^ 63
        → (word : ℕ) × (protect epoch ≡ some word)
          × (word < 2 ^ 64)
          × (snapshot word ≡ (true, epoch))
          × (snapshot (clear word) ≡ (false, epoch))
          × (clear (clear word) ≡ clear word))
      × (2 ^ 63 ≤ epoch → epoch < 2 ^ 64 → protect epoch ≡ none)
      × (is_active epoch ≡ (snapshot epoch).0)
unfolding protect is_active snapshot
epoch_cell epoch = (
  λ lt.
      let e : (2 ^ 63 + epoch) % 2 ^ 63 ≡ epoch = omega arith in
      let small : epoch % 2 ^ 63 ≡ epoch = omega arith in
      let joined : bit_or (2 ^ 63) epoch ≡ 2 ^ 63 + epoch = bit_or-fields 1 epoch 63 lt in
      let cleared : clear (2 ^ 63 + epoch) ≡ epoch = clear-eq (2 ^ 63 + epoch) ∙ e in
      (
        2 ^ 63 + epoch,
        rw (get_msb-low 63 epoch lt, active, joined) refl,
        omega arith,
        snapshot-high epoch lt,
        rw cleared (snapshot-low epoch lt),
        rw cleared (clear-eq epoch ∙ small),
      ),
  λ ge lt. rw (get_msb-high 63 epoch ge lt) refl,
  rw (both_orders active_mask epoch) refl,
)
