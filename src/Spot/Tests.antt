-- ===== src/Spot/Tests.antt =====
-- A run of the spot processor: an order to buy that is canceled before it trades.
use little_cex.Prelude.{
  ◌≡◌, refl, ap, ℤ, pos, ◌+ℤ◌, ◌-ℤ◌, ◌*ℤ◌, true, false, Option, none, some, [], ◌∷◌, Bytes, arith,
  add64, sub64, mul64, quotient, wrap64, lookup, insert, erase, ascii, int_eq, nat_eq, bytes_eq,
  pair_eq,
}
use little_cex.Asset.Engine.{
  reserve_asset, release_asset, submit, shard_index, plain_command, decimal, digits,
}
use little_cex.Asset.Model.{UserState, asset_in, get_asset, create_snapshot, clone, new_user_state}
use little_cex.Asset.Shard.Handler.{
  handle_command, is_duplicate, run_logged, log_command, conclude, execute, dispatch, remember,
  send_result,
}
use little_cex.Asset.Shard.Operations.{do_reserve}
use little_cex.Asset.Shard.State.{
  Shard, no_stats, get_or_create_user, asset_at, count_orders, ensure_asset, touch_at, update_asset,
  update_snapshot, update_user, user_at,
}
use little_cex.Mtrade.Order.{Order, buy, limit, new}
use little_cex.Spot.{
  SpotProcessor, place_order, parse_symbol, principal, fee_of, reserve_total, submit_order,
  SpotError,
}
use little_cex.Spot.Events.{handle_cancel}
use little_cex.Spot.Unfilled.{IsModest, handle_cancel-place_order}

-- A shard without a log, whose one user has 100 of the quote asset.
abbrev user : UserState
user = record {
  user_id = pos 1;
  assets = (ascii "USDT", record { available = pos 100; locked = pos 0 }) ∷ [];
  positions = [];
  options = [];
  last_seq = 0;
  last_active_at = pos 7;
  open_order_count = pos 0;
  pinned = false;
}

abbrev shard : Shard
shard = record {
  users = (pos 1, user) ∷ [];
  applied_cmds = [];
  snapshot_store = some [];
  stats = no_stats;
  wal = none;
  clock = λ n. pos n;
  sent = [];
}

-- 10 at a price of 2, with a fee of 500 in 10000.
abbrev order : Order
order = record {
  id = pos 5;
  user_id = pos 1;
  price = pos 200000000;
  qty = pos 10;
  filled_qty = pos 0;
  created_at = pos 0;
  side = buy;
  type_ = limit;
  status = new;
  symbol = ascii "BTC_USDT";
}

abbrev processor : SpotProcessor
processor = record {
  shards = shard ∷ [];
  order_index = [];
  maker_fee_rate = pos 10;
  taker_fee_rate = pos 500;
  submitted = [];
  queue_takes = λ n. true;
  publishes = false;
  journals = [];
}

order-IsModest : IsModest order (pos 500)
unfolding reserve_total principal fee_of quotient mul64 add64 wrap64 ◌*ℤ◌ ◌+ℤ◌
order-IsModest = record {
  some_qty = omega arith;
  qty_bound = omega arith;
  fee_not_negative = omega arith;
  fee_bound = omega arith;
  some_total = omega arith;
}

abbrev placed : SpotProcessor
placed = (place_order order processor).1

accepted : (place_order order processor).0 ≡ some none
unfolding place_order parse_symbol reserve_asset submit shard_index plain_command handle_command
    is_duplicate lookup run_logged log_command conclude execute dispatch do_reserve
    get_or_create_user asset_at asset_in get_asset decimal digits create_snapshot clone
    new_user_state remember send_result count_orders ensure_asset touch_at update_asset
    update_snapshot update_user user_at ◌*ℤ◌ ◌+ℤ◌ ◌-ℤ◌ add64 mul64 quotient sub64 wrap64 erase
    insert fee_of principal reserve_total submit_order
accepted = refl

places : place_order order processor ≡ (some none, placed)
places = ap (λ (r : Option (Option SpotError)). (r, placed)) accepted

handle_cancel-place_order_example :
    (asset : Bytes) × (total : ℤ) × (placed.shards
      ≡ (reserve_asset (pos 1) asset total (pos 5) processor.shards).1)
    × ((handle_cancel (some order) placed).1.shards
        ≡ (release_asset (pos 1) asset total (pos 5) placed.shards).1)
handle_cancel-place_order_example =
    handle_cancel-place_order order processor placed placed order-IsModest refl places refl
