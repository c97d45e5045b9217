-- ===== src/CasLoop/Alone.antt =====
-- One thread that runs alone on a `CASLoopQueue`: when its calls return and with what, and when they
-- never return.
pub mod Defs
mod Store
pub mod Enqueue
pub mod Dequeue
pub mod Faults
