-- ===== src/Cst.antt =====
-- bft/cst/mod.rs: how a replica fetches the state of the others.
pub mod State
pub mod Process
mod Tests
