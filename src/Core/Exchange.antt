-- ===== src/Core/Exchange.antt =====
-- crates/smkvm-core/src/exchange.rs: carrying the clipboard between machines. `State` has the data,
-- `Serve` the helpers that answer those who wait; `Machines`, `Offers` and `Fetches` have the
-- handlers, and `Handle` calls them.
pub mod State
pub mod Serve
pub mod Machines
pub mod Offers
pub mod Fetches
pub mod Handle
pub mod Tickets
pub mod Answers
pub mod Effects
pub mod Tidy
pub mod Invariant
pub mod Conversation
mod Tests
