-- ===== src/Network.antt =====
-- bft/communication/mod.rs: the nodes that the processes send and receive with. The sockets, TLS
-- and the channel that leads to the node itself are of other packages or of other files; what the
-- tasks of a node do to them is in `World`.
pub mod Types
pub mod Send
pub mod Receive
pub mod Connect
pub mod Bootstrap
mod Samples
mod Tests
