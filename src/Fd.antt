-- ===== src/Fd.antt =====
-- crates/linux-compat/src/fd.rs: descriptor tables and pseudoterminals.
pub mod Table
pub mod Pty
