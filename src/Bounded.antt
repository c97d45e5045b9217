-- ===== src/Bounded.antt =====
-- The proxies of include/linked that keep the number of items or of segments below a bound.
pub mod Machine
pub mod Safety
pub mod Counter
pub mod Chunk
mod Tests
