-- ===== src/Scq/Layout.antt =====
-- The block that holds a `SCQueue`: its two rings and its buffer.
use mpmc_queues.Base.{ℕ, ◌+◌, ◌*◌, ◌%◌, ◌^◌, ◌≤◌, ◌<◌, ◌≡◌, arith}
use mpmc_queues.Scq.{align_size, ring_bytes, buffer_bytes, total_bytes_needed, setup_pointers}

align_size_bounds :
    (s : ℕ)
    → s + 64 ≤ 2 ^ 64
    → (s ≤ align_size s) × (align_size s < s + 64) × (align_size s % 64 ≡ 0)
unfolding align_size
align_size_bounds s fits = (ground arith, ground arith, ground arith)

module _ (lfring_size : ℕ → ℕ) (item_bytes base order : ℕ) where
  -- When the bytes fit in a `size_t`, in a block whose base is aligned to a cache line: the two rings and the buffer start at cache lines, they do
  -- not overlap, they end inside the `total_bytes_needed` bytes of the block, and fewer than three
  -- cache lines of these are padding.
  pub setup_pointers_fit :
      base % 64 ≡ 0
      → lfring_size order * 2 + item_bytes * 2 ^ order + 64 * 3 ≤ 2 ^ 64
      → let (aq, fq, under) = setup_pointers lfring_size base order in
        let total = total_bytes_needed lfring_size item_bytes order in
        ((aq % 64 ≡ 0) × (fq % 64 ≡ 0) × (under % 64 ≡ 0))
        × (aq + lfring_size order ≤ fq)
        × (fq + lfring_size order ≤ under)
        × (under + item_bytes * 2 ^ order ≤ base + total)
        × (total < lfring_size order * 2 + item_bytes * 2 ^ order + 64 * 3)
  unfolding setup_pointers total_bytes_needed ring_bytes buffer_bytes
  setup_pointers_fit at_line fits =
      let (a, b, c) = align_size_bounds (lfring_size order) (omega arith) in
      let small : item_bytes * 2 ^ order % 2 ^ 64 ≡ item_bytes * 2 ^ order = omega arith in
      let (d, e, f) = align_size_bounds (item_bytes * 2 ^ order % 2 ^ 64) (omega arith) in
      ((at_line, omega arith, omega arith), omega arith, omega arith, omega arith, omega arith)
