-- ===== src/Prq/Alone.antt =====
-- One thread of `PRQueue` at a time: `Defs` says what the queue holds between two calls, `Store` and
-- `Take` follow the accesses, `Enqueue` and `Dequeue` the calls.
pub mod Defs
mod Store
mod Take
pub mod Enqueue
pub mod Dequeue
