-- ===== src/Core/Server.antt =====
-- crates/smkvm-core/src/server.rs: the machine with the keyboard and the mouse.
pub mod State
pub mod Placements
pub mod Pointer
pub mod Handle
pub mod Online
pub mod Invariant
pub mod Arrivals
pub mod Consistent
pub mod Usable
pub mod Histories
pub mod Routed
pub mod Tests
