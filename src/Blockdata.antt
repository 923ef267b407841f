-- ===== src/Blockdata.antt =====
-- Transactions and block headers: bitcoin/src/blockdata.
pub mod Transaction
pub mod Header
pub mod Decode
pub mod RoundTrip
pub mod Version
pub mod ProofOfWork
mod Examples
pub mod Whole
pub mod Sizes
pub mod Weights
pub mod Witness
pub mod Block
pub mod Commitment
pub mod Height
pub mod LockTime
