-- ===== src/Epoch.antt =====
-- include/util/hazard/Recycler/EpochCell.hpp: one 64-bit word, the top bit of which is the active
-- flag and the rest the epoch.
pub mod Cell
mod Tests
use mpmc_queues.Base.{
  ℕ, ◌-◌, ◌^◌, bit_and, bit_or, Bool, not, Option, none, some, ◌==◌, if◌then◌else◌,
}
use mpmc_queues.Bit.{get_msb, set_msb}

abbrev pub active_mask : ℕ
active_mask = set_msb 64 0

abbrev pub epoch_mask : ℕ
epoch_mask = 2 ^ 64 - 1 - active_mask

-- The word that `protect` stores; `none` is a failed assertion.
unfoldable pub protect : (epoch : ℕ) → Option ℕ
protect epoch = if get_msb 64 epoch == 0 then some (bit_or active_mask epoch) else none

unfoldable pub clear : (word : ℕ) → ℕ
clear word = bit_and word epoch_mask

unfoldable pub is_active : (word : ℕ) → Bool
is_active word = not (bit_and word active_mask == 0)

-- The flag and the epoch.
unfoldable pub snapshot : (word : ℕ) → Bool × ℕ
snapshot word = (not (bit_and active_mask word == 0), bit_and epoch_mask word)
