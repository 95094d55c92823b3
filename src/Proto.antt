-- ===== src/Proto.antt =====
-- crates/smkvm-proto: what two peers say to one another, and how it is framed.
pub mod Keys
pub mod Msg
pub mod Codec
