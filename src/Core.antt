-- ===== src/Core.antt =====
-- bft/core/mod.rs and the views of bft/core/server/mod.rs.
pub mod Params
pub mod View
pub mod Quorum
mod Tests
