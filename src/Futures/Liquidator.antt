-- ===== src/Futures/Liquidator.antt =====
-- The executor of liquidations (pkg/futures/liquidation_executor.go): an order at the price at which
-- the margin is lost, and what its first trade leaves to the insurance fund. The matching engine's
-- queue and the generator of identifiers answer from streams in the state.
pub mod Once
use little_cex.Prelude.{
  ℕ, ◌+◌, inl, inr, ℤ, pos, Bool, Option, none, some, List, ◌∷◌, Bytes, Map, if◌then◌else◌, ltb_ℤ,
  leb_ℤ, eqb_ℤ, add64, sub64, mul64, neg64, div64, quotient, int_eq, bytes_eq, nat_eq, lookup,
  insert, erase, ascii, pair_eq,
}
use little_cex.Store.{Table}
use little_cex.Futures.Spec.{ContractSpec, precision}
use little_cex.Futures.Contracts.{ContractError, get_contract}
use little_cex.Futures.Position.{Position, abs_size}
use little_cex.Futures.Positions.{PositionStore, get_by_user_and_symbol, save}
use little_cex.Futures.MarkPrice.{Prices, get_mark_price}
use little_cex.Futures.Insurance.{InsuranceFund, add_funds, cover_bankruptcy}
use little_cex.Futures.Processor.{MatchOrder}
use little_cex.Mtrade.Matcher.{Trade}
use little_cex.Mtrade.Order as Matching

-- What an execution reads of its task.
pub record LiquidationTask : Type 0 where
  pub user_id : ℤ
  pub symbol : Bytes

-- The time of the submission is left aside.
pub record PendingLiquidation : Type 0 where
  pub task : LiquidationTask
  pub position : Position
  pub bankrupt_price : ℤ
  pub settle_currency : Bytes

pub data LiquidationError : Type 0 where
  no_position_found no_mark_price submit_liquidation_failed : LiquidationError
  contract_error : ContractError → LiquidationError

-- The orders sent are kept with the latest first.
pub record LiquidationExecutor (Con Pos : Type 0) : Type 0 where
  pub contracts : Con
  pub positions : Pos
  pub mark_prices : Prices
  pub insurance_fund : InsuranceFund
  pub pending_tasks : Map ℤ PendingLiquidation
  pub submitted : List MatchOrder
  pub order_ids : ℕ → ℤ
  pub queue_takes : ℕ → Bool

-- `none` is the panic of a division by 0, which the test for a size of 0 excludes.
unfoldable pub margin_per_unit : Position → Option ℤ
margin_per_unit p = div64 (mul64 p.margin (pos precision)) (abs_size p)

unfoldable pub calculate_bankrupt_price : Position → Option ℤ
calculate_bankrupt_price p =
    if eqb_ℤ p.size (pos 0) then some (pos 0) else elim (margin_per_unit p) [
      | none ↦ none
      | some m ↦
          some (if ltb_ℤ (pos 0) p.size then sub64 p.entry_price m else add64 p.entry_price m)
    ]

unfoldable pub liquidation_order : ℤ → LiquidationTask → Position → ℤ → MatchOrder
liquidation_order id task p price = record {
  id = id;
  user_id = task.user_id;
  symbol = task.symbol;
  side = if ltb_ℤ (pos 0) p.size then Matching.sell else Matching.buy;
  price = price;
  qty = abs_size p;
}

unfoldable pub liquidation_pnl : Trade → Position → ℤ
liquidation_pnl t p =
    if ltb_ℤ (pos 0) p.size
    then quotient (mul64 (sub64 t.price p.entry_price) t.qty) precision
    else quotient (mul64 (sub64 p.entry_price t.price) t.qty) precision

-- The quantity of the trade plays no part in what is left: nothing.
unfoldable pub liquidated_position : ℤ → Position → Position
liquidated_position pnl p = record p {
  realized_pnl = add64 p.realized_pnl pnl;
  size = pos 0;
  margin = pos 0;
  entry_price = pos 0;
}

-- A surplus goes to the fund, and a deficit is taken from it; their errors are ignored.
unfoldable pub settle_with_fund : ℤ → PendingLiquidation → InsuranceFund → InsuranceFund
settle_with_fund remaining t f =
    if ltb_ℤ (pos 0) remaining
    then (add_funds t.settle_currency remaining (ascii "LIQUIDATION_PROFIT") t.task.user_id
        t.task.symbol (ascii "Liquidation surplus") f).1
    else if ltb_ℤ remaining (pos 0)
    then (cover_bankruptcy t.settle_currency (neg64 remaining) t.task.user_id t.task.symbol f).1.1
    else f

module _ {Con Pos : Type 0} (contracts : Table Bytes ContractSpec Con)
    (store : PositionStore Pos) where
  abbrev pub Executed : Type 0
  Executed = Option LiquidationError × LiquidationExecutor Con Pos

  -- From the order's identifier on.
  unfoldable pub submit_liquidation :
      LiquidationTask → Position → ContractSpec → ℤ → LiquidationExecutor Con Pos → Executed
  submit_liquidation task p spec price x =
      let id = x.order_ids 0 in
      let pending : PendingLiquidation = record {
        task = task;
        position = p;
        bankrupt_price = price;
        settle_currency = spec.settle_currency;
      } in
      let asked = record x {
        order_ids = λ n. x.order_ids (n + 1);
        queue_takes = λ n. x.queue_takes (n + 1);
        pending_tasks = insert id pending x.pending_tasks;
      } in
      if x.queue_takes 0
      then (none, record asked { submitted = liquidation_order id task p price ∷ x.submitted })
      else (
        some submit_liquidation_failed,
        record asked { pending_tasks = erase id asked.pending_tasks },
      )

  unfoldable pub execute_priced :
      LiquidationTask → Position → ContractSpec → LiquidationExecutor Con Pos → Option Executed
  execute_priced task p spec x =
      if leb_ℤ (get_mark_price task.symbol x.mark_prices) (pos 0)
      then some (some no_mark_price, x)
      else elim (calculate_bankrupt_price p) [
        | none ↦ none
        | some price ↦ some (submit_liquidation task p spec price x)
      ]

  unfoldable pub execute_open :
      LiquidationTask → Position → LiquidationExecutor Con Pos → Option Executed
  execute_open task p x =
      if eqb_ℤ p.size (pos 0)
      then some (some no_position_found, x)
      else elim (get_contract contracts task.symbol x.contracts) [
        | inl e ↦ some (some (contract_error e), x)
        | inr spec ↦ execute_priced task p spec x
      ]

  -- `Execute`; the outer `none` is a panic.
  unfoldable pub execute_liquidation :
      LiquidationTask → LiquidationExecutor Con Pos → Option Executed
  execute_liquidation task x =
      elim (get_by_user_and_symbol store task.user_id task.symbol x.positions) [
        | none ↦ some (some no_position_found, x)
        | some none ↦ some (some no_position_found, x)
        | some (some p) ↦ execute_open task p x
      ]

  unfoldable pub handle_liquidation_fill :
      Trade → PendingLiquidation → LiquidationExecutor Con Pos → LiquidationExecutor Con Pos
  handle_liquidation_fill t pending x =
      let pnl = liquidation_pnl t pending.position in
      record x {
        insurance_fund =
            settle_with_fund (add64 pending.position.margin pnl) pending x.insurance_fund;
        positions = (save store (liquidated_position pnl pending.position) x.positions).1;
      }

  -- One side of a trade.
  unfoldable pub handle_side : ℤ → Trade → LiquidationExecutor Con Pos → LiquidationExecutor Con Pos
  handle_side id t x = elim (lookup id x.pending_tasks) [
    | none ↦ x
    | some pending ↦
        let filled = handle_liquidation_fill t pending x in
        record filled { pending_tasks = erase id filled.pending_tasks }
  ]

  -- `handleEvent` of a trade; it ignores the other events.
  unfoldable pub handle_liquidation_trade :
      Trade → LiquidationExecutor Con Pos → LiquidationExecutor Con Pos
  handle_liquidation_trade t x = handle_side t.maker_id t (handle_side t.taker_id t x)
