-- ===== src/Futures/Tests/Orders.antt =====
-- Runs of orders to open positions and of their trades.
use little_cex.Prelude.{
  ℕ, ◌+◌, ◌≡◌, refl, ℤ, pos, negsuc, ◌+ℤ◌, ◌-ℤ◌, ◌*ℤ◌, ◌≤ℤ◌, ◌<ℤ◌, Bool, true, false, Option, none,
  some, List, [], Map, arith, mul64, quotient, wrap64, lookup, insert, erase, int_eq, nat_eq,
  bytes_eq, pair_eq,
}
use little_cex.Store.{Table}
use little_cex.Store.Memory.{memory_table, plain_table, plain_table-IsTable}
use little_cex.Fund.Balances.{
  BalanceKey, BalanceRecord, fresh_balance, available_of, locked_of, get_balance, freeze_balance,
}
use little_cex.Futures.Spec.{ContractSpec, perpetual, trading, is_trading}
use little_cex.Futures.Contracts.{get_contract}
use little_cex.Futures.Positions.{get_by_user_and_symbol, save}
use little_cex.Futures.Position.{Position, long, is_empty, update_position}
use little_cex.Futures.Positions.Memory.{memory_store}
use little_cex.Futures.Processor.{
  OpenPositionRequest, Venue, OrderMeta, open_position, open_meta, submit_failed, check_margin,
  freeze_and_submit, submit_open, required_margin,
}
use little_cex.Futures.Processor.Open.{IsOpened, open_position-IsOpened}
use little_cex.Futures.Processor.Refused.{IsRefused, IsSteady, open_position-IsRefused}
use little_cex.Futures.Processor.Wrapped.{open_position-wrapped}
use little_cex.Futures.Processor.Fills.{
  apply_fill, handle_trade, publish_trade, handle_open_fill, opened_position,
}
use little_cex.Futures.Processor.Partial.{apply_fill-once, handle_trade_twice}
use little_cex.Mtrade.Matcher.{Trade}
use little_cex.Mtrade.Order.{buy}
use little_cex.Futures.Tests.Data.{usdt, btc, Contracts, contracts, market}

abbrev ledger : Table BalanceKey BalanceRecord (Map BalanceKey BalanceRecord)
ledger = plain_table

abbrev venue :
    Bool → Map ℤ OrderMeta → Venue Contracts (Map BalanceKey BalanceRecord) (List Position)
venue takes metas = record {
  contracts = market perpetual trading;
  balances = insert (pos 7, usdt) (fresh_balance (pos 7) usdt (pos 1000) (pos 0)) [];
  positions = [];
  metas = metas;
  mark_prices = [];
  submitted = [];
  published = [];
  publishes = true;
  order_ids = λ n. pos (n + 100);
  stores = λ n. true;
  queue_takes = λ n. takes;
}

abbrev order : ℕ → ℕ → OpenPositionRequest
order qty price = record {
  user_id = pos 7;
  symbol = btc;
  side = long;
  qty = pos qty;
  price = pos price;
  leverage = pos 5;
}

-- The order of 2 at 100, with a leverage of 5, needs 40.
abbrev small : OpenPositionRequest
small = order 200000000 100

-- The value of this order is -2^63.
abbrev large : OpenPositionRequest
large = order 4294967296 2147483648

abbrev opened :
    OpenPositionRequest → Bool → Venue Contracts (Map BalanceKey BalanceRecord) (List Position)
opened r takes = (open_position contracts ledger memory_store r (venue takes [])).1

open_small :
    open_position contracts ledger memory_store small (venue true []) ≡ (none, opened small true)
unfolding open_position get_contract is_trading check_margin get_balance freeze_and_submit
    freeze_balance required_margin submit_open memory_table quotient mul64 wrap64 ◌*ℤ◌ ◌+ℤ◌ ◌-ℤ◌
    plain_table lookup insert
open_small = refl

open_position-IsOpened_example :
    (spec : ContractSpec) × IsOpened contracts ledger memory_store plain_table-IsTable small spec
      (venue true [])
      (opened small true)
open_position-IsOpened_example =
    open_position-IsOpened contracts ledger memory_store plain_table-IsTable small (venue true [])
      (opened small true) open_small

ledger_steady : IsSteady contracts ledger memory_store plain_table-IsTable
unfolding plain_table
ledger_steady k cond f d = λ e. cc

none_locked : (k : BalanceKey) → pos 0 ≤ℤ locked_of (ledger.row k (venue false []).balances)
unfolding plain_table lookup insert
none_locked (uid, symbol) = ground arith

refuses :
    open_position contracts ledger memory_store small (venue false [])
    ≡ (some submit_failed, opened small false)
unfolding open_position get_contract is_trading check_margin get_balance freeze_and_submit
    freeze_balance required_margin submit_open memory_table quotient mul64 wrap64 ◌*ℤ◌ ◌+ℤ◌ ◌-ℤ◌
    plain_table lookup insert
refuses = refl

open_position-IsRefused_example :
    IsRefused contracts ledger memory_store plain_table-IsTable
      (venue false [])
      (opened small false)
open_position-IsRefused_example =
    open_position-IsRefused contracts ledger memory_store plain_table-IsTable ledger_steady small
      submit_failed (venue false []) (opened small false) none_locked refuses

open_large :
    open_position contracts ledger memory_store large (venue true []) ≡ (none, opened large true)
unfolding open_position get_contract is_trading check_margin get_balance freeze_and_submit
    freeze_balance required_margin submit_open memory_table quotient mul64 wrap64 ◌*ℤ◌ ◌+ℤ◌ ◌-ℤ◌
    plain_table lookup insert
open_large = refl

wraps : mul64 (pos 4294967296) (pos 2147483648) <ℤ negsuc 499999999
unfolding mul64 wrap64 ◌*ℤ◌
wraps = omega arith

open_position-wrapped_example :
    (spec : ContractSpec) × (available_of
        (ledger.row (pos 7, spec.settle_currency) (venue true []).balances)
      <ℤ available_of (ledger.row (pos 7, spec.settle_currency) (opened large true).balances))
open_position-wrapped_example =
    open_position-wrapped contracts ledger memory_store plain_table-IsTable large (venue true [])
      (opened large true) wraps open_large

abbrev trade : Trade
trade = record {
  id = pos 1;
  symbol = btc;
  price = pos 100;
  qty = pos 100000000;
  taker_id = pos 100;
  maker_id = pos 200;
  taker_side = buy;
  timestamp = pos 0;
}

-- The taker's order of 2, which a trade fills by 1.
abbrev waiting : Venue Contracts (Map BalanceKey BalanceRecord) (List Position)
waiting = venue true (insert (pos 100) (open_meta small) [])

abbrev or_waiting :
    Option (Venue Contracts (Map BalanceKey BalanceRecord) (List Position))
    → Venue Contracts (Map BalanceKey BalanceRecord) (List Position)
or_waiting none = waiting
or_waiting (some v) = v

abbrev filled : Venue Contracts (Map BalanceKey BalanceRecord) (List Position)
filled = or_waiting (apply_fill contracts ledger memory_store (pos 100) trade waiting)

fills : apply_fill contracts ledger memory_store (pos 100) trade waiting ≡ some filled
unfolding apply_fill handle_open_fill opened_position update_position get_by_user_and_symbol save
    is_empty memory_store lookup insert erase
fills = refl

apply_fill-once_example :
    apply_fill contracts ledger memory_store (pos 100) trade filled ≡ some filled
apply_fill-once_example =
    apply_fill-once contracts ledger memory_store (pos 100) trade trade waiting filled fills

abbrev traded : Venue Contracts (Map BalanceKey BalanceRecord) (List Position)
traded = or_waiting (handle_trade contracts ledger memory_store trade waiting)

trades : handle_trade contracts ledger memory_store trade waiting ≡ some traded
unfolding handle_trade publish_trade apply_fill handle_open_fill opened_position update_position
    get_by_user_and_symbol save is_empty memory_store lookup insert erase
trades = refl

handle_trade_twice_example : handle_trade contracts ledger memory_store trade traded ≡ none
handle_trade_twice_example =
    handle_trade_twice contracts ledger memory_store trade trade waiting traded refl trades refl
