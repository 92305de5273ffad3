-- ===== src/Spot/Events.antt =====
-- What the spot processor does with the events of the matching engine (pkg/spot/processor.go).
use little_cex.Prelude.{
  ℤ, pos, Option, none, some, List, [], ◌∷◌, ◌++◌, if◌then◌else◌, ltb_ℤ, add64, sub64, mul64, div64,
  quotient, lookup, ascii, int_eq, nat_eq, bytes_eq, pair_eq,
}
use little_cex.Asset.Engine.{FillEvent, decimal, apply_fill, precision}
use little_cex.Mtrade.Order.{Order, buy, side_beq}
use little_cex.Mtrade.Matcher.{Trade}
use little_cex.Spot.{OrderMeta, SpotProcessor, Journal, unless_panic, release_then, forget, fee_of}

-- The rates of the buyer and the seller of a trade.
abbrev buyer_rate : Trade → SpotProcessor → ℤ
buyer_rate t v = if side_beq t.taker_side buy then v.taker_fee_rate else v.maker_fee_rate

abbrev seller_rate : Trade → SpotProcessor → ℤ
seller_rate t v = if side_beq t.taker_side buy then v.maker_fee_rate else v.taker_fee_rate

unfoldable pub traded_quote : Trade → ℤ
traded_quote t = mul64 (quotient t.price precision) t.qty

-- `buyer` and `seller` are the metadata of the two orders.
unfoldable pub fill_event : Trade → OrderMeta → OrderMeta → OrderMeta → SpotProcessor → FillEvent
fill_event t taker buyer seller v = record {
  trade_id = t.id;
  order_id = pos 0;
  match_id = pos 0;
  buyer_id = buyer.user_id;
  seller_id = seller.user_id;
  base_asset = taker.base_asset;
  quote_asset = taker.quote_asset;
  price = t.price;
  quantity = t.qty;
  buyer_fee = fee_of t.qty (buyer_rate t v);
  buyer_fee_asset = buyer.base_asset;
  seller_fee = fee_of (traded_quote t) (seller_rate t v);
  seller_fee_asset = seller.quote_asset;
  timestamp = pos 0;
}

unfoldable pub journals_of : Trade → OrderMeta → OrderMeta → OrderMeta → List Journal
journals_of t taker buyer seller =
    record {
      event_id = ascii "trade_" ++ (decimal t.id ++ ascii "_seller");
      user_id = seller.user_id;
      symbol = taker.base_asset;
      amount = t.qty;
    }
    ∷ record {
      event_id = ascii "trade_" ++ (decimal t.id ++ ascii "_buyer");
      user_id = buyer.user_id;
      symbol = taker.quote_asset;
      amount = traded_quote t;
    }
    ∷ []

-- The settlement's answer is ignored: the journal entries, the latest first, are published also where
-- it failed.
unfoldable pub settle_trade :
    Trade → OrderMeta → OrderMeta → OrderMeta → SpotProcessor → Option (Unit {0}) × SpotProcessor
settle_trade t taker buyer seller v =
    let (answer, shards) = apply_fill (fill_event t taker buyer seller v) v.shards in
    let settled = record v { shards = shards } in
    elim (unless_panic answer tt) [
      | none ↦ (none, settled)
      | some u ↦ (
        some u,
        if v.publishes
            then record settled { journals = journals_of t taker buyer seller ++ v.journals }
            else settled,
      )
    ]

unfoldable pub handle_trade : Option Trade → SpotProcessor → Option (Unit {0}) × SpotProcessor
handle_trade none v = (some tt, v)
handle_trade (some t) v = elim (lookup t.taker_id v.order_index) [
  | none ↦ (some tt, v)
  | some taker ↦ elim (lookup t.maker_id v.order_index) [
    | none ↦ (some tt, v)
    | some maker ↦
        if side_beq t.taker_side buy
        then settle_trade t taker taker maker v
        else settle_trade t taker maker taker v
  ]
]

-- The share of the fee, in parts of 10000; `none` is the panic of a division by 0.
unfoldable pub fee_release : OrderMeta → Order → Option ℤ
fee_release m o = elim (div64 (mul64 (sub64 o.qty o.filled_qty) (pos 10000)) o.qty) [
  | none ↦ none
  | some ratio ↦ some (quotient (mul64 m.fee_reserve ratio) 10000)
]

unfoldable pub release_amount : OrderMeta → Order → Option ℤ
release_amount m o = elim (fee_release m o) [
  | none ↦ none
  | some fee ↦ some (
      if side_beq o.side buy
      then add64 (mul64 (quotient m.price precision) (sub64 o.qty o.filled_qty)) fee
      else add64 (sub64 o.qty o.filled_qty) fee)
]

unfoldable pub handle_cancel : Option Order → SpotProcessor → Option (Unit {0}) × SpotProcessor
handle_cancel none v = (some tt, v)
handle_cancel (some o) v = elim (lookup o.id v.order_index) [
  | none ↦ (some tt, v)
  | some m ↦ elim (release_amount m o) [
    | none ↦ (none, v)
    | some amount ↦
        if ltb_ℤ (pos 0) amount
        then release_then tt (forget o.id) m.user_id m.reserve_asset_name amount o.id v
        else (some tt, forget o.id v)
  ]
]

unfoldable pub handle_reject : Option Order → SpotProcessor → Option (Unit {0}) × SpotProcessor
handle_reject none v = (some tt, v)
handle_reject (some o) v = elim (lookup o.id v.order_index) [
  | none ↦ (some tt, v)
  | some m ↦
      release_then tt (forget o.id) m.user_id m.reserve_asset_name
        (add64 m.reserve_amt m.fee_reserve) o.id v
]

pub data Event : Type 0 where
  event_trade : Option Trade → Event
  event_order_canceled event_order_accepted event_order_rejected : Option Order → Event

unfoldable pub handle_event : Event → SpotProcessor → Option (Unit {0}) × SpotProcessor
handle_event (event_trade t) v = handle_trade t v
handle_event (event_order_canceled o) v = handle_cancel o v
handle_event (event_order_accepted o) v = (some tt, v)
handle_event (event_order_rejected o) v = handle_reject o v
