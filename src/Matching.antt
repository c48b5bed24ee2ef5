-- ===== src/Matching.antt =====
-- matchserver/logic/matcher.go: the allocator of rooms and room tokens.
pub mod State
pub mod Config
pub mod Rooms
pub mod Allocate
pub mod Refs
pub mod Invariant
pub mod Purge
pub mod Pick
pub mod Reserve
pub mod Histories
pub mod Answers
pub mod Tokens
pub mod Full
pub mod Samples
mod Tests
