-- ===== src/Units.antt =====
-- units/src: amounts of coins.
pub mod Amount
pub mod Format
