-- ===== src/Threshold.antt =====
-- The threshold encryption of sdk/threshold.
pub mod Field
pub mod Polynomial
pub mod Interpolate
pub mod Gf256
pub mod Shares
pub mod Committee
pub mod Transactions
pub mod Mempool
pub mod Delivery
pub mod Tests
