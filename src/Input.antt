-- ===== src/Input.antt =====
-- crates/smkvm-input: putting input into a machine.
pub mod Board
pub mod Inject
pub mod Logged
mod Tests
pub mod Tracked
