-- ===== src/Futures/Tests/Liquidations.antt =====
-- A run of the executor of liquidations: an order, and two trades of it.
use little_cex.Prelude.{
  ℕ, ◌+◌, pos, true, false, List, [], ◌∷◌, int_eq, bytes_eq, nat_eq, insert, pair_eq,
}
use little_cex.Futures.Spec.{perpetual, trading}
use little_cex.Futures.Position.{Position}
use little_cex.Futures.Liquidator.{LiquidationExecutor, PendingLiquidation}
use little_cex.Futures.Tests.Data.{usdt, btc, contracts, market, Contracts, position}
use little_cex.Mtrade.Matcher.{Trade}
use little_cex.Mtrade.Order.{buy}

-- The order 100 liquidates a position of 3.
abbrev pending : PendingLiquidation
pending = record {
  task = record { user_id = pos 7; symbol = btc };
  position = position 7 (pos 3);
  bankrupt_price = pos 90;
  settle_currency = usdt;
}

abbrev executor : LiquidationExecutor Contracts (List Position)
executor = record {
  contracts = market perpetual trading;
  positions = position 7 (pos 3) ∷ [];
  mark_prices = [];
  insurance_fund = record { rows = []; logs = []; balance_cache = []; fails = λ n. false };
  pending_tasks = insert (pos 100) pending [];
  submitted = [];
  order_ids = λ n. pos (101 + n);
  queue_takes = λ n. true;
}

abbrev sale : ℕ → Trade
sale qty = record {
  id = pos qty;
  symbol = btc;
  price = pos 95;
  qty = pos qty;
  taker_id = pos 100;
  maker_id = pos 200;
  taker_side = buy;
  timestamp = pos 0;
}
