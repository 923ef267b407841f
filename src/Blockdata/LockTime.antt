-- ===== src/Blockdata/LockTime.antt =====
-- Lock times: bitcoin/src/blockdata/locktime, units/src/locktime, and `Sequence` of
-- bitcoin/src/blockdata/transaction.rs.
pub mod Absolute
pub mod Relative
pub mod Laws
