-- ===== src/Futures/Processor/Close.antt =====
-- Orders that close positions (ClosePosition of pkg/futures/processor.go).
use little_cex.Prelude.{
  inl, inr, ℤ, pos, true, ◌||◌, Option, none, some, ◌∷◌, Bytes, if◌then◌else◌, ltb_ℤ, leb_ℤ, eqb_ℤ,
  mul64, div64, insert, int_eq, nat_eq, bytes_eq, pair_eq,
}
use little_cex.Store.{Table}
use little_cex.Fund.Balances.{BalanceKey, BalanceRecord}
use little_cex.Futures.Spec.{ContractSpec, is_trading}
use little_cex.Futures.Contracts.{get_contract}
use little_cex.Futures.Position.{Position, Side, long, short, abs_size}
use little_cex.Futures.Positions.{PositionStore, get_by_user_and_symbol}
use little_cex.Futures.Processor.{
  OrderMeta, Venue, FuturesError, ClosePositionRequest, contract_failed, mark_price_of,
  position_failed, rest, contract_not_trading, match_order, no_position, no_price, submit_failed,
  order_not_stored,
}

module _ {Con Bal Pos : Type 0} (contracts : Table Bytes ContractSpec Con)
    (balances : Table BalanceKey BalanceRecord Bal) (store : PositionStore Pos) where
  abbrev pub Ended : Type 0
  Ended = Option FuturesError × Venue Con Bal Pos

  abbrev close_meta : ClosePositionRequest → Position → ℤ → ℤ → Side → ℤ → OrderMeta
  close_meta r p qty price side margin = record {
    user_id = r.user_id;
    symbol = r.symbol;
    side = side;
    qty = qty;
    price = price;
    leverage = p.leverage;
    margin = margin;
    is_close = true;
    original_size = p.size;
    original_entry = p.entry_price;
  }

  unfoldable pub close_qty : ClosePositionRequest → Position → ℤ
  close_qty r p = if leb_ℤ r.qty (pos 0) || ltb_ℤ (abs_size p) r.qty then abs_size p else r.qty

  abbrev close_side : Position → Side
  close_side p = if ltb_ℤ (pos 0) p.size then short else long

  -- The share of the margin that goes with the quantity; the size is not 0 here.
  unfoldable pub margin_to_release : ClosePositionRequest → Position → Option ℤ
  margin_to_release r p = div64 (mul64 p.margin (close_qty r p)) (abs_size p)

  unfoldable pub submit_close : ClosePositionRequest → Position → ℤ → ℤ → Venue Con Bal Pos → Ended
  submit_close r p price margin v =
      let id = v.order_ids 0 in
      let stored = record v { order_ids = rest v.order_ids; stores = rest v.stores } in
      if v.stores 0
      then (let queued = record stored { queue_takes = rest v.queue_takes } in
          if v.queue_takes 0
          then (
            none,
            record queued {
              submitted =
                  match_order id r.user_id r.symbol (close_side p) price (close_qty r p)
                  ∷ v.submitted;
              metas =
                  insert id (close_meta r p (close_qty r p) price (close_side p) margin) v.metas;
            },
          )
          else (some submit_failed, queued))
      else (some order_not_stored, stored)

  -- `none` outside is the panic of the division.
  unfoldable pub close_at : ClosePositionRequest → Position → ℤ → Venue Con Bal Pos → Option Ended
  close_at r p price v = elim (margin_to_release r p) [
    | none ↦ none
    | some margin ↦ some (submit_close r p price margin v)
  ]

  unfoldable pub close_priced : ClosePositionRequest → Position → Venue Con Bal Pos → Option Ended
  close_priced r p v =
      if ltb_ℤ (pos 0) r.price
      then close_at r p r.price v
      else if leb_ℤ (mark_price_of r.symbol v.mark_prices) (pos 0)
      then some (some no_price, v)
      else close_at r p (mark_price_of r.symbol v.mark_prices) v

  unfoldable pub close_open : ClosePositionRequest → Position → Venue Con Bal Pos → Option Ended
  close_open r p v = elim (get_contract contracts r.symbol v.contracts) [
    | inl e ↦ some (some (contract_failed e), v)
    | inr spec ↦ if is_trading spec then close_priced r p v else some (some contract_not_trading, v)
  ]

  unfoldable pub close_position : ClosePositionRequest → Venue Con Bal Pos → Option Ended
  close_position r v = elim (get_by_user_and_symbol store r.user_id r.symbol v.positions) [
    | none ↦ some (some position_failed, v)
    | some none ↦ some (some no_position, v)
    | some (some p) ↦ if eqb_ℤ p.size (pos 0) then some (some no_position, v) else close_open r p v
  ]
