-- ===== src/Risk.antt =====
-- crates/risk/src/lib.rs, the margin of an account.
pub mod Types
pub mod Isolated
pub mod Portfolio
mod Tests
