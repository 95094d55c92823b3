-- ===== src/Core.antt =====
-- crates/smkvm-core: the state machines of the server and of its clients.
pub mod Client
pub mod Exchange
pub mod Server
pub mod Transfer
pub mod Joined
