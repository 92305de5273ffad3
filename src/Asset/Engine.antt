-- ===== src/Asset/Engine.antt =====
-- The account engine over its shards (pkg/asset/engine.go). A call waits for its answer: the queue
-- of its shard is empty, and the answer comes in time.
pub mod Routing
use little_cex.Prelude.{
  ℕ, zero, suc, ◌+◌, ◌/◌, ◌%◌, ℤ, pos, negsuc, pos_part, neg_part, Option, none, some, List, [],
  ◌∷◌, ◌++◌, if◌then◌else◌, ltb, Bytes, bytes_beq, ascii, length, get_at, set, mul64, quotient, Map,
  int_eq, bytes_eq, lookup,
}
use little_cex.Asset.Wal.{Recovered, finished}
use little_cex.Asset.Model.{Snapshot}
use little_cex.Asset.Shard.State.{
  Error, Command, CmdType, reserve, release, transfer, add_balance, deduct_balance, Shard, Outcome,
  ok, err, panic,
}
use little_cex.Asset.Shard.Handler.{handle_command, recover_from_wal}

-- `%d`: the digits of a number; an `int64` has 19 at most.
unfoldable pub digits : ℕ → ℕ → Bytes
digits zero n = []
digits (suc k) n =
    let high = digits k (n / 10) in if ltb n 10 then (48 + n) ∷ [] else high ++ ((48 + n % 10) ∷ [])

unfoldable pub decimal : ℤ → Bytes
decimal (pos n) = digits 19 n
decimal (negsuc n) = 45 ∷ digits 19 (n + 1)

-- `Precision`
abbrev pub precision : ℕ
precision = 100000000

-- `getShard`: the remainder has the sign of the user's number, which is then dropped.
unfoldable pub shard_index : ℕ → ℤ → ℕ
shard_index n uid = (pos_part uid + neg_part uid) % n

pub record FillEvent : Type 0 where
  pub trade_id : ℤ
  pub order_id : ℤ
  pub match_id : ℤ
  pub buyer_id : ℤ
  pub seller_id : ℤ
  pub base_asset : Bytes
  pub quote_asset : Bytes
  pub price : ℤ
  pub quantity : ℤ
  pub buyer_fee : ℤ
  pub buyer_fee_asset : Bytes
  pub seller_fee : ℤ
  pub seller_fee_asset : Bytes
  pub timestamp : ℤ

-- A command without the fields that a transfer sets. Each caller waits on a channel of its own;
-- one number is enough for them, since the answer is read at once.
unfoldable pub plain_command : CmdType → Bytes → ℤ → Bytes → ℤ → Command
plain_command t id uid symbol amount = record {
  type_ = t;
  cmd_id = id;
  user_id = uid;
  symbol = symbol;
  amount = amount;
  to_user_id = pos 0;
  to_symbol = [];
  to_amount = pos 0;
  fee = pos 0;
  fee_asset = [];
  result = some 0;
}

unfoldable pub quote_amount : FillEvent → ℤ
quote_amount fill = mul64 (quotient fill.price precision) fill.quantity

unfoldable pub seller_command : FillEvent → Command
seller_command fill = record {
  type_ = transfer;
  cmd_id = ascii "fill_seller_" ++ decimal fill.trade_id;
  user_id = fill.seller_id;
  symbol = fill.base_asset;
  amount = fill.quantity;
  to_user_id = fill.seller_id;
  to_symbol = fill.quote_asset;
  to_amount = quote_amount fill;
  fee = fill.seller_fee;
  fee_asset = fill.seller_fee_asset;
  result = some 0;
}

unfoldable pub buyer_command : FillEvent → Command
buyer_command fill = record {
  type_ = transfer;
  cmd_id = ascii "fill_buyer_" ++ decimal fill.trade_id;
  user_id = fill.buyer_id;
  symbol = fill.quote_asset;
  amount = quote_amount fill;
  to_user_id = fill.buyer_id;
  to_symbol = fill.base_asset;
  to_amount = fill.quantity;
  fee = fill.buyer_fee;
  fee_asset = fill.buyer_fee_asset;
  result = some 0;
}

-- What the caller reads from its channel: the latest answer.
abbrev pub latest : List (ℕ × Option Error) → Option Error
latest [] = none
latest ((_, answer) ∷ _) = answer

-- How a call of the engine ends: an error of the shard is its value, `none` is success, and an
-- index out of range panics.
abbrev pub Answer : Type 0
Answer = Outcome (Option Error)

abbrev pub answered : ℕ → List Shard → Outcome (Unit {0}) × Shard → Answer × List Shard
answered i shards (ok _, s) = (ok (latest s.sent), set shards i s)
answered i shards (err e, s) = (err e, set shards i s)
answered i shards (panic, s) = (panic, set shards i s)

-- `Submit` to the shard of the command's user.
unfoldable pub submit : Command → List Shard → Answer × List Shard
submit cmd shards =
    let i = shard_index (length shards) cmd.user_id in
    elim (get_at shards i) [
      | none ↦ (panic, shards)
      | some s ↦ answered i shards (handle_command cmd s)
    ]

unfoldable pub reserve_asset : ℤ → Bytes → ℤ → ℤ → List Shard → Answer × List Shard
reserve_asset uid symbol amount order_id =
    submit (plain_command reserve (ascii "reserve_" ++ decimal order_id) uid symbol amount)

unfoldable pub release_asset : ℤ → Bytes → ℤ → ℤ → List Shard → Answer × List Shard
release_asset uid symbol amount order_id =
    submit (plain_command release (ascii "release_" ++ decimal order_id) uid symbol amount)

-- The buyer's side of `ApplyFill`, once the seller's has been answered.
abbrev then_buyer : FillEvent → Answer × List Shard → Answer × List Shard
then_buyer fill (ok none, shards) = submit (buyer_command fill) shards
then_buyer fill (r, shards) = (r, shards)

unfoldable pub apply_fill : FillEvent → List Shard → Answer × List Shard
unfolding submit
apply_fill fill shards = then_buyer fill (submit (seller_command fill) shards)

pub record BalanceChangeEvent : Type 0 where
  pub event_type : Bytes
  pub event_id : Bytes
  pub user_id : ℤ
  pub symbol : Bytes
  pub amount : ℤ
  pub timestamp : ℤ

unfoldable pub apply_balance_change : BalanceChangeEvent → List Shard → Answer × List Shard
apply_balance_change event = submit (
    plain_command
      (if bytes_beq event.event_type (ascii "DEPOSIT") then add_balance else deduct_balance)
      event.event_id event.user_id event.symbol event.amount)

-- `GetAvailable`, over the snapshots that the shards publish.
unfoldable pub available_in : ℤ → Bytes → Map ℤ Snapshot → ℤ
available_in uid symbol store = elim (lookup uid store) [
  | none ↦ pos 0
  | some snap ↦ elim (lookup symbol snap.assets) [ none ↦ pos 0 | some a ↦ a.available ]
]

-- `RecoverAll`: the shards in turn, up to the first that fails, whose outcome is the answer.
unfoldable pub recover_all : List Shard → List Shard × Option (Recovered Error)
recover_all [] = ([], none)
recover_all (s ∷ shards) =
    let (rest, failure) = recover_all shards in
    elim (recover_from_wal s).0 [
      | finished _ ↦ ((recover_from_wal s).1 ∷ rest, failure)
      | other ↦ ((recover_from_wal s).1 ∷ shards, some other)
    ]
