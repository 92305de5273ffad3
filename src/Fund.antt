-- ===== src/Fund.antt =====
-- The cold wallet (pkg/fund).
pub mod Balances
mod Tests
