-- ===== src/Pow.antt =====
-- bitcoin/src/pow.rs: 256-bit integers, targets, work and the difficulty adjustments.
pub mod U256
pub mod Target
pub mod Retarget
mod Examples
