-- ===== src/Ring/Blocks.antt =====
-- The queues of an `LFringSlab` lie side by side.
use mpmc_queues.Base.{ℕ, zero, suc, Option, none, some, List, [], ◌∷◌}

abbrev pub get_elem? : List ℕ → ℕ → Option ℕ
get_elem? [] i = none
get_elem? (x ∷ xs) zero = some x
get_elem? (x ∷ xs) (suc i) = get_elem? xs i
