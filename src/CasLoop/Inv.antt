-- ===== src/CasLoop/Inv.antt =====
-- The invariant of `CASLoopQueue` under every interleaving: `Defs` states it, `Acts` and `Steps`
-- read the code's accesses as moves, `Memory`, `Others` and `Keep` show that each move keeps it,
-- `Start` and `Runs` follow it from the constructor through any sequence of events.
mod Defs
mod Acts
mod Memory
mod Others
mod Keep
mod Steps
mod Runs
mod Start
pub use Defs.*
pub use Acts.*
pub use Memory.*
pub use Steps.{step-Act}
pub use Runs.{next-Inv, run_all-Inv}
pub use Start.{construct-Inv, construct-start, make_ring-IsRing, init_cells_in}
