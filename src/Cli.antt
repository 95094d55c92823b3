-- ===== src/Cli.antt =====
-- crates/smkvm-cli: the parts of the daemons that compute without the operating system.
pub mod Outbox
pub mod Plan
pub mod Tests
