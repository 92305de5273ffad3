-- ===== src/Liquidation.antt =====
-- Liquidation (pkg/liquidation): the index of the users at risk.
pub mod Index
mod Tests
