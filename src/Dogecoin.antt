-- ===== src/Dogecoin.antt =====
-- bitcoin/src/dogecoin/: networks and consensus parameters, headers and merged mining.
pub mod Params
pub mod AuxPow
pub mod Header
pub mod Root
mod Examples
