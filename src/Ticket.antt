-- ===== src/Ticket.antt =====
-- include/util/threading/DynamicThreadTicket.hpp: one manager of tickets, one shared access of one
-- thread at a time. The manager's slot in a thread's local cache is the number `local`.
pub mod System
pub mod Alone
pub mod Static
pub mod Instances
pub mod Steps
pub mod Start
pub mod Safety
pub mod Inv
pub mod Words
mod Tests
use mpmc_queues.Base.{
  ℕ, zero, suc, ◌+◌, ◌-◌, ◌*◌, ◌/◌, ◌%◌, ◌^◌, bit_and, bit_or, Bool, true, false, not, ◌&&◌, ◌||◌,
  Option, none, some, ltb, leb, ◌==◌, if◌then◌else◌, update,
}

-- `MaxThreads` and `NumCells` at the default of `DTT_MAX_BITS`.
abbrev pub cap : ℕ
cap = 1024

abbrev pub num_cells : ℕ
num_cells = 16

abbrev pub no_ticket : ℕ
no_ticket = 2 ^ 64 - 1

-- The loop `while ((x & 1) == 0) { x >>= 1; ++c; }` on a word that is not 0.
unfoldable pub ctz_loop : (fuel x c : ℕ) → ℕ
ctz_loop zero x c = c
ctz_loop (suc fuel) x c = let rest = ctz_loop fuel (x / 2) (c + 1) in if x % 2 == 0 then rest else c

unfoldable pub count_trailing_zeros : ℕ → ℕ
count_trailing_zeros x = if x == 0 then 64 else ctz_loop 64 x 0

-- The loop of the constructor, with the rounds left.
unfoldable pub init_storage : (rounds i remaining : ℕ) → (ℕ → ℕ) → ℕ → ℕ
init_storage zero i remaining storage = storage
init_storage (suc n) i remaining storage =
    let bits =
      if leb 64 remaining then 2 ^ 64 - 1 else if ltb 0 remaining then 2 ^ remaining - 1 else 0 in
    init_storage n (i + 1) (if leb 64 remaining then remaining - 64 else 0) (update storage i bits)

-- The constructor; `none` is `std::invalid_argument`.
unfoldable pub construct : (max_threads : ℕ) → Option (ℕ → ℕ)
construct max_threads =
    if max_threads == 0 || ltb cap max_threads
    then none
    else some (init_storage num_cells 0 max_threads (λ _. 0))

-- Where a thread stands; the last three are the returns of `acquire` and `release`.
pub data Pc : Type 0 where
  idle : Pc
  acq_enter : Pc
  acq_load : (cell : ℕ) → Pc
  acq_cas : (cell cur : ℕ) → Pc
  rel_enter : Pc
  acquired : (ticket : ℕ) → Pc
  refused : Pc
  released : Pc

-- The test at the head of the inner loop, up to the exchange.
unfoldable pub scan : (max_threads cell cur : ℕ) → Pc
scan max_threads cell cur =
    if cur == 0
    then acq_load (cell + 1)
    else if leb max_threads (cell * 64 + count_trailing_zeros cur)
    then acq_load (cell + 1)
    else acq_cas cell cur

-- `cur & ~mask`
unfoldable pub claim : ℕ → ℕ
claim cur = bit_and cur (2 ^ 64 - 1 - 2 ^ count_trailing_zeros cur)

-- `storage_[cell].fetch_or(1 << bit)`
unfoldable pub give_back : (ticket : ℕ) → (ℕ → ℕ) → ℕ → ℕ
give_back ticket storage =
    update storage (ticket / 64) (bit_or (storage (ticket / 64)) (2 ^ (ticket % 64)))

-- One shared access: the storage, the thread's cached ticket and where it stands. `weak` says that
-- the exchange fails spuriously.
unfoldable pub step : (max_threads : ℕ) → Bool → (ℕ → ℕ) → (local : ℕ) → Pc → (ℕ → ℕ) × ℕ × Pc
step m weak storage local acq_enter =
    (storage, local, if local == no_ticket then acq_load 0 else acquired local)
step m weak storage local (acq_load cell) =
    (storage, local, if ltb cell num_cells then scan m cell (storage cell) else refused)
step m weak storage local (acq_cas cell cur) =
    let ticket = cell * 64 + count_trailing_zeros cur in
    if not weak && storage cell == cur
    then (update storage cell (claim cur), ticket, acquired ticket)
    else (storage, local, scan m cell (storage cell))
step m weak storage local rel_enter =
    if local == no_ticket
    then (storage, local, released)
    else (give_back local storage, no_ticket, released)
step m weak storage local idle = (storage, local, idle)
step m weak storage local (acquired t) = (storage, local, acquired t)
step m weak storage local refused = (storage, local, refused)
step m weak storage local released = (storage, local, released)

unfoldable pub has_ticket : (local : ℕ) → Bool
has_ticket local = not (local == no_ticket)
