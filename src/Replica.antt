-- ===== src/Replica.antt =====
-- bft/core/server/mod.rs: a replica, which drives the other components by the messages it receives.
pub mod Types
pub mod Events
pub mod Bootstrap
pub mod Retrieving
pub mod Syncing
pub mod Normal
pub mod Samples
