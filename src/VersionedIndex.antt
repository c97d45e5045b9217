-- ===== src/VersionedIndex.antt =====
-- include/util/hazard/Recycler/VersionedIndex.hpp: an index and a version packed in a 64-bit word,
-- at a given `Capacity`.
pub mod Packing
mod Tests
use mpmc_queues.Base.{
  ℕ, ◌+◌, ◌-◌, ◌*◌, ◌/◌, ◌%◌, ◌^◌, bit_and, bit_or, Bool, not, ◌||◌, Option, none, some, ltb, ◌==◌,
  if◌then◌else◌,
}
use mpmc_queues.Bit.{bit_width}

module _ (capacity : ℕ) where
  abbrev pub index_bits : ℕ
  index_bits = bit_width capacity

  abbrev pub version_bits : ℕ
  version_bits = 64 - index_bits

  abbrev pub index_mask : ℕ
  index_mask = 2 ^ index_bits - 1

  -- `~INDEX_MASK` in 64 bits.
  abbrev pub version_mask : ℕ
  version_mask = 2 ^ 64 - 1 - index_mask

  -- The constructor from a version and an index; `none` is a failed assertion.
  unfoldable pub make : (ver idx : ℕ) → Option ℕ
  make ver idx =
      if ltb capacity idx || not (ver / 2 ^ version_bits == 0)
      then none
      else some (bit_or (ver * 2 ^ index_bits % 2 ^ 64) (bit_and idx index_mask))

  unfoldable pub index : (raw : ℕ) → ℕ
  index raw = bit_and raw index_mask

  unfoldable pub version : (raw : ℕ) → ℕ
  version raw = raw / 2 ^ index_bits

  unfoldable pub set_index : (new_idx raw : ℕ) → Option ℕ
  set_index new_idx raw =
      if ltb capacity new_idx
      then none
      else some (bit_or (bit_and raw version_mask) (bit_and new_idx index_mask))

  unfoldable pub set_version : (new_ver raw : ℕ) → Option ℕ
  set_version new_ver raw =
      if not (new_ver / 2 ^ version_bits == 0)
      then none
      else some (
          bit_or (bit_and (new_ver * 2 ^ index_bits % 2 ^ 64) version_mask)
            (bit_and raw index_mask))

  unfoldable pub advance_version : (raw : ℕ) → ℕ
  advance_version raw = (raw + 2 ^ index_bits) % 2 ^ 64
