-- ===== src/Futures/Processor.antt =====
-- Orders that open and close positions (pkg/futures/processor.go). A call runs to its end before the
-- events of the matching engine are handled. The engine's queue, the service that stores orders and
-- the generator of identifiers answer from streams in the state.
pub mod Close
pub mod Fills
pub mod Open
pub mod Partial
pub mod Refused
pub mod Wrapped
use little_cex.Prelude.{
  ℕ, ◌+◌, inl, inr, ℤ, pos, pos_part, Bool, false, not, ◌||◌, Option, none, some, List, ◌∷◌, Bytes,
  Map, if◌then◌else◌, ltb_ℤ, leb_ℤ, mul64, quotient, lookup, insert, int_eq, nat_eq, bytes_eq,
  pair_eq,
}
use little_cex.Store.{Table}
use little_cex.Fund.Balances.{
  BalanceKey, BalanceRecord, get_balance, freeze_balance, unfreeze_balance,
}
use little_cex.Futures.Spec.{ContractSpec, is_trading, precision}
use little_cex.Futures.Contracts.{ContractError, get_contract}
use little_cex.Futures.Position.{Side, long, short}
use little_cex.Futures.Positions.{PositionStore}
use little_cex.Mtrade.Order as Matching

pub record OrderMeta : Type 0 where
  pub user_id : ℤ
  pub symbol : Bytes
  pub side : Side
  pub qty : ℤ
  pub price : ℤ
  pub leverage : ℤ
  pub margin : ℤ
  pub is_close : Bool
  pub original_size : ℤ
  pub original_entry : ℤ

-- The order that goes to the matching engine.
pub record MatchOrder : Type 0 where
  pub id : ℤ
  pub user_id : ℤ
  pub symbol : Bytes
  pub side : Matching.Side
  pub price : ℤ
  pub qty : ℤ

pub data FuturesError : Type 0 where
  contract_failed : ContractError → FuturesError
  contract_not_trading invalid_leverage insufficient_margin balance_failed order_not_stored
        submit_failed position_failed no_position no_price :
      FuturesError

-- What the processor publishes.
pub data Published : Type 0 where
  position_closed : ℤ → Bytes → ℤ → ℤ → ℤ → ℤ → Published
  order_canceled : ℤ → ℤ → ℤ → Bytes → Published
  trade_done : ℤ → ℤ → ℤ → ℤ → ℤ → Published

pub record Venue (Con Bal Pos : Type 0) : Type 0 where
  pub contracts : Con
  pub balances : Bal
  pub positions : Pos
  pub metas : Map ℤ OrderMeta
  pub mark_prices : Map Bytes ℤ
  pub submitted : List MatchOrder
  pub published : List Published
  pub publishes : Bool
  pub order_ids : ℕ → ℤ
  pub stores : ℕ → Bool
  pub queue_takes : ℕ → Bool

abbrev pub rest : {A : Type 0} → (ℕ → A) → ℕ → A
rest s n = s (n + 1)

abbrev pub to_match_side : Side → Matching.Side
to_match_side long = Matching.buy
to_match_side short = Matching.sell

-- `GetMarkPrice`: 0 where there is none.
abbrev pub mark_price_of : Bytes → Map Bytes ℤ → ℤ
mark_price_of symbol m = elim (lookup symbol m) [ none ↦ pos 0 | some p ↦ p ]

pub record OpenPositionRequest : Type 0 where
  pub user_id : ℤ
  pub symbol : Bytes
  pub side : Side
  pub qty : ℤ
  pub price : ℤ
  pub leverage : ℤ

pub record ClosePositionRequest : Type 0 where
  pub user_id : ℤ
  pub symbol : Bytes
  pub qty : ℤ
  pub price : ℤ

-- The leverage was found to be positive.
unfoldable pub required_margin : OpenPositionRequest → ℤ
required_margin r = quotient (quotient (mul64 r.qty r.price) precision) (pos_part r.leverage)

abbrev pub match_order : ℤ → ℤ → Bytes → Side → ℤ → ℤ → MatchOrder
match_order id uid symbol side price qty = record {
  id = id;
  user_id = uid;
  symbol = symbol;
  side = to_match_side side;
  price = price;
  qty = qty;
}

abbrev pub open_meta : OpenPositionRequest → OrderMeta
open_meta r = record {
  user_id = r.user_id;
  symbol = r.symbol;
  side = r.side;
  qty = r.qty;
  price = r.price;
  leverage = r.leverage;
  margin = required_margin r;
  is_close = false;
  original_size = pos 0;
  original_entry = pos 0;
}

module _ {Con Bal Pos : Type 0} (contracts : Table Bytes ContractSpec Con)
    (balances : Table BalanceKey BalanceRecord Bal) (store : PositionStore Pos) where
  abbrev pub Answered : Type 0
  Answered = Option FuturesError × Venue Con Bal Pos

  -- `UnfreezeBalance`, whose error is ignored.
  unfoldable pub give_back : ℤ → Bytes → ℤ → Venue Con Bal Pos → Venue Con Bal Pos
  give_back uid currency amount v = record v {
    balances = (unfreeze_balance balances uid currency amount v.balances).1;
  }

  -- The order is stored, submitted and remembered, in this order.
  unfoldable pub submit_open : OpenPositionRequest → Bytes → Venue Con Bal Pos → Answered
  submit_open r currency v =
      let id = v.order_ids 0 in
      let named = record v { order_ids = rest v.order_ids } in
      let stored = record named { stores = rest v.stores } in
      if v.stores 0
      then (let queued = record stored { queue_takes = rest v.queue_takes } in
          if v.queue_takes 0
          then (
            none,
            record queued {
              submitted = match_order id r.user_id r.symbol r.side r.price r.qty ∷ v.submitted;
              metas = insert id (open_meta r) v.metas;
            },
          )
          else (some submit_failed, give_back r.user_id currency (required_margin r) queued))
      else (some order_not_stored, give_back r.user_id currency (required_margin r) stored)

  unfoldable pub freeze_and_submit : OpenPositionRequest → Bytes → Venue Con Bal Pos → Answered
  freeze_and_submit r currency v =
      let (e, b) = freeze_balance balances r.user_id currency (required_margin r) v.balances in
      elim e [
        | some _ ↦ (some insufficient_margin, record v { balances = b })
        | none ↦ submit_open r currency (record v { balances = b })
      ]

  unfoldable pub check_margin : OpenPositionRequest → Bytes → Venue Con Bal Pos → Answered
  check_margin r currency v = elim (get_balance balances r.user_id currency v.balances) [
    | none ↦ (some balance_failed, v)
    | some none ↦ (some insufficient_margin, v)
    | some (some row) ↦
        if ltb_ℤ row.available (required_margin r)
        then (some insufficient_margin, v)
        else freeze_and_submit r currency v
  ]

  unfoldable pub open_position : OpenPositionRequest → Venue Con Bal Pos → Answered
  open_position r v = elim (get_contract contracts r.symbol v.contracts) [
    | inl e ↦ (some (contract_failed e), v)
    | inr spec ↦
        if not (is_trading spec)
        then (some contract_not_trading, v)
        else if leb_ℤ r.leverage (pos 0) || ltb_ℤ spec.max_leverage r.leverage
        then (some invalid_leverage, v)
        else check_margin r spec.settle_currency v
  ]
