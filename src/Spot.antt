-- ===== src/Spot.antt =====
-- The spot processor (pkg/spot/processor.go), between the account engine and the matching engine. The
-- queue of the matching engine answers from a stream in the state.
pub mod Events
pub mod Unfilled
mod Tests
use little_cex.Prelude.{
  ℕ, ◌+◌, ℤ, Bool, Option, none, some, List, [], ◌∷◌, Bytes, Map, if◌then◌else◌, add64, sub64,
  mul64, quotient, insert, erase, nat_beq, int_eq, nat_eq, bytes_eq, pair_eq,
}
use little_cex.Asset.Shard.State.{Shard, ok, err, panic}
use little_cex.Asset.Engine.{Answer, reserve_asset, release_asset, precision}
use little_cex.Mtrade.Order.{Order, Side, buy, side_beq}

pub record OrderMeta : Type 0 where
  pub order_id : ℤ
  pub user_id : ℤ
  pub symbol : Bytes
  pub side : Side
  pub base_asset : Bytes
  pub quote_asset : Bytes
  pub reserve_asset_name : Bytes
  pub reserve_amt : ℤ
  pub fee_reserve : ℤ
  pub price : ℤ
  pub qty : ℤ

-- The journal entries of a trade; their time stamps and constants are left aside.
pub record Journal : Type 0 where
  pub event_id : Bytes
  pub user_id : ℤ
  pub symbol : Bytes
  pub amount : ℤ

pub data SpotError : Type 0 where
  invalid_symbol asset_reserve_fail submit_order_fail : SpotError

pub record SpotProcessor : Type 0 where
  -- the account engine
  pub shards : List Shard
  pub order_index : Map ℤ OrderMeta
  pub maker_fee_rate : ℤ
  pub taker_fee_rate : ℤ
  pub submitted : List Order
  pub queue_takes : ℕ → Bool
  pub publishes : Bool
  pub journals : List Journal

-- How a call ends; the outer `none` is a panic.
abbrev pub Ending : Type 0
Ending = Option (Option SpotError) × SpotProcessor

abbrev on_first_part : ℕ → List Bytes → List Bytes
on_first_part c [] = (c ∷ []) ∷ []
on_first_part c (part ∷ parts) = (c ∷ part) ∷ parts

-- `strings.Split` at the underscores.
abbrev split : Bytes → List Bytes
split [] = [] ∷ []
split (c ∷ s) = let parts = split s in if nat_beq c 95 then [] ∷ parts else on_first_part c parts

abbrev two_parts : List Bytes → Option (Bytes × Bytes)
two_parts (base ∷ quote ∷ []) = some (base, quote)
two_parts _ = none

unfoldable pub parse_symbol : Bytes → Option (Bytes × Bytes)
parse_symbol symbol = two_parts (split symbol)

-- What an order ties up without its fee.
unfoldable pub principal : Order → ℤ
principal o = if side_beq o.side buy then mul64 (quotient o.price precision) o.qty else o.qty

unfoldable pub fee_of : ℤ → ℤ → ℤ
fee_of amount rate = quotient (mul64 amount rate) 10000

unfoldable pub reserve_total : Order → ℤ → ℤ
reserve_total o rate = add64 (principal o) (fee_of (principal o) rate)

abbrev pub reserved_in : Order → Bytes → Bytes → Bytes
reserved_in o base quote = if side_beq o.side buy then quote else base

unfoldable pub order_meta : Order → Bytes → Bytes → ℤ → OrderMeta
order_meta o base quote rate = record {
  order_id = o.id;
  user_id = o.user_id;
  symbol = o.symbol;
  side = o.side;
  base_asset = base;
  quote_asset = quote;
  reserve_asset_name = reserved_in o base quote;
  reserve_amt = sub64 (reserve_total o rate) (fee_of (principal o) rate);
  fee_reserve = fee_of (principal o) rate;
  price = o.price;
  qty = o.qty;
}

-- An answer that is ignored: only a panic ends the call.
abbrev pub unless_panic : {A : Type 0} → Answer → A → Option A
unless_panic panic a = none
unless_panic (ok _) a = some a
unless_panic (err _) a = some a

-- `Release`, whose answer is ignored, and what is done after it.
unfoldable pub release_then :
    {A : Type 0}
    → A
    → (SpotProcessor → SpotProcessor)
    → ℤ
    → Bytes
    → ℤ
    → ℤ
    → SpotProcessor
    → Option A × SpotProcessor
release_then a after uid symbol amount id v =
    let (answer, shards) = release_asset uid symbol amount id v.shards in
    let released = record v { shards = shards } in
    elim (unless_panic answer a) [ none ↦ (none, released) | some b ↦ (some b, after released) ]

abbrev pub forget : ℤ → SpotProcessor → SpotProcessor
forget id v = record v { order_index = erase id v.order_index }

-- From the entry in the index on.
unfoldable pub submit_order : Order → Bytes → Bytes → SpotProcessor → Ending
submit_order o base quote v =
    let indexed = record v {
      order_index = insert o.id (order_meta o base quote v.taker_fee_rate) v.order_index;
      queue_takes = λ n. v.queue_takes (n + 1);
    } in
    if v.queue_takes 0
    then (some none, record indexed { submitted = o ∷ v.submitted })
    else release_then (some submit_order_fail) (forget o.id) o.user_id (reserved_in o base quote)
        (reserve_total o v.taker_fee_rate) o.id indexed

abbrev reserved_then : Order → Bytes → Bytes → Answer × List Shard → SpotProcessor → Ending
reserved_then o base quote (ok none, shards) v =
    submit_order o base quote (record v { shards = shards })
reserved_then o base quote (panic, shards) v = (none, record v { shards = shards })
reserved_then o base quote (ok (some _), shards) v =
    (some (some asset_reserve_fail), record v { shards = shards })
reserved_then o base quote (err _, shards) v =
    (some (some asset_reserve_fail), record v { shards = shards })

unfoldable pub place_order : Order → SpotProcessor → Ending
place_order o v = elim (parse_symbol o.symbol) [
  | none ↦ (some (some invalid_symbol), v)
  | some (base, quote) ↦
      reserved_then o base quote
        (reserve_asset o.user_id (reserved_in o base quote) (reserve_total o v.taker_fee_rate) o.id
          v.shards)
        v
]
