-- ===== src/Script.antt =====
-- Scripts: bitcoin/src/blockdata/script and opcodes.rs.
pub mod Integers
pub mod Opcodes
pub mod Instructions
mod Examples
