-- ===== src/Futures/Processor/Fills.antt =====
-- What the processor does with the events of the matching engine (handleTrade, applyFill,
-- handleCloseFill and handleCancel of pkg/futures/processor.go).
use little_cex.Prelude.{
  ◌⊎◌, inl, inr, ℤ, pos, Bool, true, false, Option, none, some, ◌∷◌, Bytes, if◌then◌else◌, ltb_ℤ,
  eqb_ℤ, add64, sub64, mul64, neg64, quotient, lookup, erase, int_eq, nat_eq, bytes_eq, pair_eq,
}
use little_cex.Store.{Table}
use little_cex.Fund.Balances.{BalanceKey, BalanceRecord, add_available}
use little_cex.Futures.Spec.{ContractSpec, precision}
use little_cex.Futures.Contracts.{ContractError, get_contract}
use little_cex.Futures.Position.{Position, Side, long, short, update_position}
use little_cex.Futures.Positions.{PositionStore, get_by_user_and_symbol, save}
use little_cex.Futures.Processor.{
  OrderMeta, Published, position_closed, order_canceled, trade_done, Venue, give_back,
}
use little_cex.Mtrade.Matcher.{Trade}

abbrev pub spec_of : ContractError ⊎ ContractSpec → Option ContractSpec
spec_of (inl _) = none
spec_of (inr s) = some s

-- A look-up whose error is dropped.
abbrev pub found_position : Option (Option Position) → Option Position
found_position none = none
found_position (some o) = o

abbrev pub signed_qty : Side → ℤ → ℤ
signed_qty long qty = qty
signed_qty short qty = neg64 qty

abbrev new_position : OrderMeta → Position
new_position m = record {
  user_id = m.user_id;
  symbol = m.symbol;
  size = pos 0;
  entry_price = pos 0;
  margin = pos 0;
  leverage = pos 0;
  realized_pnl = pos 0;
}

-- `none` is a panic.
unfoldable pub opened_position : OrderMeta → Trade → Option Position → Option Position
opened_position m t o =
    let (p, is_new) : Position × Bool = elim o [
      | none ↦ (new_position m, true)
      | some q ↦ (q, false)
    ] in
    elim (update_position p (signed_qty m.side t.qty) t.price m.margin m.leverage is_new) [
      | none ↦ none
      | some (r, _) ↦ some r
    ]

unfoldable pub realized_pnl_of : OrderMeta → Trade → ℤ
realized_pnl_of m t =
    if ltb_ℤ (pos 0) m.original_size
    then quotient (mul64 (sub64 t.price m.original_entry) t.qty) precision
    else quotient (mul64 (sub64 m.original_entry t.price) t.qty) precision

-- Nothing where the loss is more than the margin.
unfoldable pub close_payout : OrderMeta → Trade → ℤ
close_payout m t =
    let amount = add64 m.margin (realized_pnl_of m t) in
    if ltb_ℤ amount (pos 0) then pos 0 else amount

abbrev pub cleared : Position → Position
cleared p = if eqb_ℤ p.size (pos 0) then record p { margin = pos 0; entry_price = pos 0 } else p

unfoldable pub reduced_position : OrderMeta → Trade → Position → Position
reduced_position m t p = cleared (record p {
  size = if ltb_ℤ (pos 0) m.original_size then sub64 p.size t.qty else add64 p.size t.qty;
  realized_pnl = add64 p.realized_pnl (realized_pnl_of m t);
  margin = sub64 p.margin m.margin;
})

module _ {Con Bal Pos : Type 0} (contracts : Table Bytes ContractSpec Con)
    (balances : Table BalanceKey BalanceRecord Bal) (store : PositionStore Pos) where
  abbrev publish : Published → Venue Con Bal Pos → Venue Con Bal Pos
  publish e v = if v.publishes then record v { published = e ∷ v.published } else v

  abbrev save_position : Position → Venue Con Bal Pos → Venue Con Bal Pos
  save_position p v = record v { positions = (save store p v.positions).1 }

  abbrev forget : ℤ → Venue Con Bal Pos → Venue Con Bal Pos
  forget id v = record v { metas = erase id v.metas }

  abbrev pay : Option ContractSpec → ℤ → ℤ → Venue Con Bal Pos → Venue Con Bal Pos
  pay none uid amount v = v
  pay (some spec) uid amount v =
      if ltb_ℤ (pos 0) amount
      then record v {
        balances = (add_available balances uid spec.settle_currency amount v.balances).1;
      }
      else v

  unfoldable pub handle_close_fill :
      Option ContractSpec → OrderMeta → Trade → Venue Con Bal Pos → Venue Con Bal Pos
  handle_close_fill spec m t v =
      elim (found_position (get_by_user_and_symbol store m.user_id m.symbol v.positions)) [
        | none ↦ v
        | some p ↦
            publish
              (position_closed m.user_id m.symbol t.qty t.price (realized_pnl_of m t)
                (reduced_position m t p).size)
              (save_position (reduced_position m t p) (pay spec m.user_id (close_payout m t) v))
      ]

  unfoldable pub handle_open_fill :
      OrderMeta → Trade → Venue Con Bal Pos → Option (Venue Con Bal Pos)
  handle_open_fill m t v =
      elim (opened_position m t
        (found_position (get_by_user_and_symbol store m.user_id m.symbol v.positions))) [
          | none ↦ none
          | some p ↦ some (save_position p v)
        ]

  -- The order is forgotten after its first fill.
  unfoldable pub apply_fill : ℤ → Trade → Venue Con Bal Pos → Option (Venue Con Bal Pos)
  apply_fill id t v = elim (lookup id v.metas) [
    | none ↦ some v
    | some m ↦
        if m.is_close
        then some (
            forget id
              (handle_close_fill (spec_of (get_contract contracts m.symbol v.contracts)) m t v))
        else elim (handle_open_fill m t v) [ none ↦ none | some v' ↦ some (forget id v') ]
  ]

  -- The event names the settlement currency of the taker's order, as it was known before the fills: a
  -- taker that is not known is a nil pointer.
  unfoldable pub publish_trade :
      Trade → Option OrderMeta → Venue Con Bal Pos → Option (Venue Con Bal Pos)
  publish_trade t none v = if v.publishes then none else some v
  publish_trade t (some m) v =
      some (publish (trade_done t.id t.taker_id t.maker_id t.price t.qty) v)

  unfoldable pub handle_trade : Trade → Venue Con Bal Pos → Option (Venue Con Bal Pos)
  handle_trade t v = elim (apply_fill t.taker_id t v) [
    | none ↦ none
    | some v' ↦ elim (apply_fill t.maker_id t v') [
      | none ↦ none
      | some v'' ↦ publish_trade t (lookup t.taker_id v.metas) v''
    ]
  ]

  -- The event of a contract that is not found is a nil pointer.
  unfoldable pub publish_cancel :
      ℤ → OrderMeta → Option ContractSpec → Venue Con Bal Pos → Option (Venue Con Bal Pos)
  publish_cancel id m none v = if v.publishes then none else some v
  publish_cancel id m (some spec) v =
      some (publish (order_canceled id m.user_id m.margin spec.settle_currency) v)

  abbrev unfreeze_in : OrderMeta → Option ContractSpec → Venue Con Bal Pos → Venue Con Bal Pos
  unfreeze_in m none v = v
  unfreeze_in m (some spec) v =
      give_back contracts balances store m.user_id spec.settle_currency m.margin v

  unfoldable pub handle_cancel : ℤ → Venue Con Bal Pos → Option (Venue Con Bal Pos)
  handle_cancel id v = elim (lookup id v.metas) [
    | none ↦ some v
    | some m ↦
        let spec = spec_of (get_contract contracts m.symbol v.contracts) in
        publish_cancel id m spec (forget id (unfreeze_in m spec v))
  ]
