-- ===== src/Book.antt =====
-- crates/cerdic-tee-matcher/src/book.rs, the live matcher's order book.
pub mod Bits
pub mod Occupancy
pub mod Types
pub mod Ladder
pub mod State
pub mod Links
pub mod Depth
pub mod Segment
pub mod Removal
pub mod Invariant
pub mod Available
pub mod Matching
pub mod Touch
pub mod Submit
pub mod Sample
mod Tests
