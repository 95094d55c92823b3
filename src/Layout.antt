-- ===== src/Layout.antt =====
-- crates/smkvm-layout: the global virtual desktop.
pub mod Model
pub mod Geometry
pub mod Desktop
pub mod Resolve
pub mod Hex
pub mod Rational
pub mod Tests
