-- ===== src/Ordering.antt =====
-- bft/ordering/mod.rs: sequence numbers and the queues of messages that arrive early.
pub mod SeqNo
pub mod Distance
pub mod Queue
mod Tests
