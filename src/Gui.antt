-- ===== src/Gui.antt =====
-- crates/smkvm-gui: the editor of the arrangement.
pub mod Snap
pub mod Tests
