-- ===== src/Futures/Liquidator/Once.antt =====
-- The trades of a liquidation order after the first (handleEvent of
-- pkg/futures/liquidation_executor.go).
use little_cex.Prelude.{int_eq, bytes_eq, nat_eq, pair_eq}
