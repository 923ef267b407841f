-- ===== src/Consensus.antt =====
-- The consensus encoding: bitcoin/src/consensus/encode.rs.
pub mod Encode
pub mod RoundTrip
pub mod Vectors
pub mod Minimal
mod Examples
