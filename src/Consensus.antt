-- ===== src/Consensus.antt =====
-- bft/consensus/mod.rs.
pub mod Tbo
pub mod State
pub mod Poll
pub mod Process
mod Tests
