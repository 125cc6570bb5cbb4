-- ===== src/Log.antt =====
-- bft/consensus/log/mod.rs.
pub mod Types
pub mod Decision
pub mod Clear
pub mod Store
pub mod Finalize
mod Tests
