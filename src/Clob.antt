-- ===== src/Clob.antt =====
-- crates/clob/src/lib.rs, the public central limit order book.
pub mod Types
pub mod Levels
pub mod State
pub mod Matching
pub mod Orders
pub mod Index
pub mod Priority
pub mod Invariant
pub mod Writes
pub mod Process
pub mod Removal
pub mod Modify
pub mod Cleanup
mod Tests
