-- ===== src/VersionedIndex/Tests.antt =====
-- A `VersionedIndex` of capacity 4.
use mpmc_queues.Base.{ℕ, ◌+◌, ◌%◌, ◌^◌, ◌≡◌, refl, arith, some}
use mpmc_queues.Bit.{bit_width, bit_width_loop}
use mpmc_queues.VersionedIndex.{
  make, index, version, set_index, set_version, advance_version, version_bits,
}
use mpmc_queues.VersionedIndex.Packing.{versioned_fields}

bits : version_bits 4 ≡ 61
unfolding bit_width bit_width_loop
bits = refl

versioned_fields_example :
    ((new : ℕ) × (make 4 9 3 ≡ some new) × (index 4 new ≡ 3) × (version 4 new ≡ 9))
    × ((new : ℕ) × (set_index 4 3 77 ≡ some new)
        × (index 4 new ≡ 3)
        × (version 4 new ≡ version 4 77))
    × ((new : ℕ) × (set_version 4 9 77 ≡ some new)
        × (index 4 new ≡ index 4 77)
        × (version 4 new ≡ 9))
    × (index 4 (advance_version 4 77) ≡ index 4 77)
    × (version 4 (advance_version 4 77) ≡ (version 4 77 + 1) % 2 ^ version_bits 4)
versioned_fields_example =
    versioned_fields 4 (omega arith) (omega arith) 9 3 77 (rw bits (omega arith)) (omega arith)
      (omega arith)
