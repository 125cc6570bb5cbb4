-- ===== src/Sync.antt =====
-- bft/sync/mod.rs: the view change protocol, by which a new leader is elected.
pub mod Types
pub mod Tbo
pub mod Predicates
pub mod Proofs
pub mod Watch
pub mod Stops
pub mod Finalize
pub mod Poll
pub mod Process
pub mod Samples
mod Tests
