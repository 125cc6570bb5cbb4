-- ===== src/Client.antt =====
-- bft/core/client/mod.rs.
pub mod Waiting
pub mod Votes
mod Tests
