-- ===== src/Asset/Shard/Operations.antt =====
-- The operations of a shard (`doReserve` to `doDeductBalance` of pkg/asset/shard.go). An
-- operation that fails leaves what it has written so far: at most an empty user or a zero balance.
use little_cex.Prelude.{
  ℤ, pos, ◌&&◌, [], ◌∷◌, if◌then◌else◌, ltb_ℤ, leb_ℤ, add64, sub64, add32, sub32, Bytes, Bool, true,
  false,
}
use little_cex.Asset.Model.{Asset}
use little_cex.Asset.Shard.State.{
  Command, Action, ◌>>=◌, ◌>>◌, modify_users, fail_if, when, touch, get_asset_at, update_asset,
  count_orders, get_or_create_user, require_user, update_snapshot, insufficient_balance,
  insufficient_locked,
}

-- `a.Available += x` and the like.
abbrev pub credit : ℤ → Asset → Asset
credit x a = record a { available = add64 a.available x }

abbrev pub debit : ℤ → Asset → Asset
debit x a = record a { available = sub64 a.available x }

abbrev pub lock : ℤ → Asset → Asset
lock x a = record a { locked = add64 a.locked x }

abbrev pub unlock : ℤ → Asset → Asset
unlock x a = record a { locked = sub64 a.locked x }

unfoldable pub do_reserve : Command → Action (Unit {0})
do_reserve cmd = do
  get_or_create_user cmd.user_id
  asset ← get_asset_at cmd.user_id cmd.symbol
  fail_if (ltb_ℤ asset.available cmd.amount) insufficient_balance
  modify_users (update_asset cmd.user_id cmd.symbol (debit cmd.amount))
  modify_users (update_asset cmd.user_id cmd.symbol (lock cmd.amount))
  modify_users (count_orders cmd.user_id (λ n. add32 n (pos 1)))
  touch cmd.user_id

abbrev pub count_down : ℤ → ℤ
count_down n = if ltb_ℤ (pos 0) n then sub32 n (pos 1) else n

unfoldable pub do_release : Command → Action (Unit {0})
do_release cmd = do
  require_user cmd.user_id
  asset ← get_asset_at cmd.user_id cmd.symbol
  fail_if (ltb_ℤ asset.locked cmd.amount) insufficient_locked
  modify_users (update_asset cmd.user_id cmd.symbol (unlock cmd.amount))
  modify_users (update_asset cmd.user_id cmd.symbol (credit cmd.amount))
  modify_users (count_orders cmd.user_id count_down)
  touch cmd.user_id

abbrev pub is_nonempty_text : Bytes → Bool
is_nonempty_text [] = false
is_nonempty_text (_ ∷ _) = true

-- A payer short of the fee pays none.
unfoldable pub take_fee : Command → Action (Unit {0})
take_fee cmd = when (ltb_ℤ (pos 0) cmd.fee && is_nonempty_text cmd.fee_asset) (do
  fee_asset ← get_asset_at cmd.user_id cmd.fee_asset
  when (leb_ℤ cmd.fee fee_asset.available)
      (modify_users (update_asset cmd.user_id cmd.fee_asset (debit cmd.fee))))

-- The second half of `doTransfer`: the receiver is paid, and its snapshot published.
unfoldable pub pay_receiver : Command → Action (Unit {0})
pay_receiver cmd = do
  get_or_create_user cmd.to_user_id
  receiver_asset ← get_asset_at cmd.to_user_id cmd.to_symbol
  modify_users (update_asset cmd.to_user_id cmd.to_symbol (credit cmd.to_amount))
  touch cmd.user_id
  touch cmd.to_user_id
  update_snapshot cmd.to_user_id

unfoldable pub do_transfer : Command → Action (Unit {0})
do_transfer cmd = do
  require_user cmd.user_id
  payer_asset ← get_asset_at cmd.user_id cmd.symbol
  fail_if (ltb_ℤ payer_asset.locked cmd.amount) insufficient_locked
  modify_users (update_asset cmd.user_id cmd.symbol (unlock cmd.amount))
  take_fee cmd
  pay_receiver cmd

unfoldable pub do_add_balance : Command → Action (Unit {0})
do_add_balance cmd = do
  get_or_create_user cmd.user_id
  asset ← get_asset_at cmd.user_id cmd.symbol
  modify_users (update_asset cmd.user_id cmd.symbol (credit cmd.amount))
  touch cmd.user_id

unfoldable pub do_deduct_balance : Command → Action (Unit {0})
do_deduct_balance cmd = do
  require_user cmd.user_id
  asset ← get_asset_at cmd.user_id cmd.symbol
  fail_if (ltb_ℤ asset.available cmd.amount) insufficient_balance
  modify_users (update_asset cmd.user_id cmd.symbol (debit cmd.amount))
  touch cmd.user_id
