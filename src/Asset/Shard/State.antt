-- ===== src/Asset/Shard/State.antt =====
-- The state of a shard and the actions on it (pkg/asset/shard.go). A pointer into one of its maps
-- is the key: the code keeps such a pointer only after the look-up that made it, and no two keys
-- share a record, so a write through the pointer is a write at the key.
use little_cex.Prelude.{
  ℕ, ◌+◌, ℤ, pos, Bool, true, false, Option, none, some, List, Map, Bytes, bytes_eq, int_eq, lookup,
  insert, if◌then◌else◌,
}
use little_cex.Asset.Model.{
  Asset, UserState, Snapshot, new_user_state, get_asset, asset_in, create_snapshot,
}
use little_cex.Asset.Wal.{Wal, rest_of}

pub data Error : Type 0 where
  insufficient_balance insufficient_locked user_not_found duplicate_command wal_write : Error

pub data CmdType : Type 0 where
  reserve release transfer add_balance deduct_balance : CmdType
  -- the zero value, and any other: the handler's `switch` has no case for it
  unset : CmdType

-- `result` is the channel that waits for the answer, if there is one.
pub record Command : Type 0 where
  pub type_ : CmdType
  pub cmd_id : Bytes
  pub user_id : ℤ
  pub symbol : Bytes
  pub amount : ℤ
  pub to_user_id : ℤ
  pub to_symbol : Bytes
  pub to_amount : ℤ
  pub fee : ℤ
  pub fee_asset : Bytes
  pub result : Option ℕ

-- The counters are `uint64`, which no run of the program fills.
pub record ShardStats : Type 0 where
  pub total_commands : ℕ
  pub reserve_count : ℕ
  pub release_count : ℕ
  pub transfer_count : ℕ
  pub reject_count : ℕ
  pub duplicate_count : ℕ
  pub active_user_count : ℕ

-- `clock` holds the readings of the clock still to come. `sent` is what went to the result
-- channels, latest first; `none` is the nil error.
pub record Shard : Type 0 where
  pub users : Map ℤ UserState
  pub applied_cmds : Map Bytes (Unit {0})
  pub snapshot_store : Option (Map ℤ Snapshot)
  pub stats : ShardStats
  pub wal : Option Wal
  pub clock : ℕ → ℤ
  pub sent : List (ℕ × Option Error)

abbrev pub no_stats : ShardStats
no_stats = record {
  total_commands = 0;
  reserve_count = 0;
  release_count = 0;
  transfer_count = 0;
  reject_count = 0;
  duplicate_count = 0;
  active_user_count = 0;
}

-- How a call ends: a value, an error value, or a panic, which ends the process.
pub data Outcome (A : Type 0) : Type 0 where
  ok : A → Outcome A
  err : Error → Outcome A
  panic : Outcome A

abbrev pub Action : Type 0 → Type 0
Action A = Shard → Outcome A × Shard

infixl 5 ◌>>=◌ ◌>>◌
abbrev pub ◌>>=◌ : {A B : Type 0} → Action A → (A → Action B) → Action B
◌>>=◌ m f s =
    let (r, s') = m s in elim r [ ok a ↦ f a s' | err e ↦ (err e, s') | panic ↦ (panic, s') ]

abbrev pub ◌>>◌ : {A B : Type 0} → Action A → Action B → Action B
m >> k = m >>= λ _. k

abbrev pub modify : (Shard → Shard) → Action (Unit {0})
modify f s = (ok tt, f s)

abbrev pub fail_if : Bool → Error → Action (Unit {0})
fail_if c e s = (if c then err e else ok tt, s)

abbrev pub when : Bool → Action (Unit {0}) → Action (Unit {0})
when c m s = if c then m s else (ok tt, s)

-- `time.Now().UnixNano()`
abbrev pub now : Action ℤ
now s = (ok (s.clock 0), record s { clock = rest_of s.clock })

abbrev pub Users : Type 0
Users = Map ℤ UserState

-- The user that a pointer from the map leads to.
abbrev pub or_new : ℤ → Option UserState → UserState
or_new uid none = new_user_state (pos 0) uid
or_new uid (some u) = u

unfoldable pub user_at : ℤ → Users → UserState
user_at uid users = or_new uid (lookup uid users)

unfoldable pub update_user : ℤ → (UserState → UserState) → Users → Users
update_user uid f users = insert uid (f (user_at uid users)) users

-- `user.GetAsset(symbol)` for its effect on the map.
unfoldable pub ensure_asset : ℤ → Bytes → Users → Users
ensure_asset uid symbol = update_user uid (get_asset symbol)

-- The asset that `user.GetAsset(symbol)` points to.
unfoldable pub asset_at : ℤ → Bytes → Users → Asset
asset_at uid symbol users = asset_in (user_at uid users) symbol

abbrev pub set_asset : Bytes → (Asset → Asset) → UserState → UserState
set_asset symbol f u = record u { assets = insert symbol (f (asset_in u symbol)) u.assets }

unfoldable pub update_asset : ℤ → Bytes → (Asset → Asset) → Users → Users
update_asset uid symbol f = update_user uid (set_asset symbol f)

abbrev pub modify_users : (Users → Users) → Action (Unit {0})
modify_users f s = (ok tt, record s { users = f s.users })

abbrev pub get_asset_at : ℤ → Bytes → Action Asset
get_asset_at uid symbol = do
  modify_users (ensure_asset uid symbol)
  λ s. (ok (asset_at uid symbol s.users), s)

abbrev pub set_active : ℤ → UserState → UserState
set_active time u = record u { last_active_at = time }

unfoldable pub touch_at : ℤ → ℤ → Users → Users
touch_at uid time = update_user uid (set_active time)

-- `user.LastActiveAt = time.Now().UnixNano()`
abbrev pub touch : ℤ → Action (Unit {0})
touch uid = do time ← now; modify_users (touch_at uid time)

abbrev pub set_count : (ℤ → ℤ) → UserState → UserState
set_count f u = record u { open_order_count = f u.open_order_count }

unfoldable pub count_orders : ℤ → (ℤ → ℤ) → Users → Users
count_orders uid f = update_user uid (set_count f)

abbrev pub set_user : ℤ → UserState → Shard → Shard
set_user uid u s = record s {
  users = insert uid u s.users;
  stats = record s.stats { active_user_count = s.stats.active_user_count + 1 };
}

-- `getOrCreateUser`
unfoldable pub get_or_create_user : ℤ → Action (Unit {0})
get_or_create_user uid s = elim (lookup uid s.users) [
  | some _ ↦ (ok tt, s)
  | none ↦ (do time ← now; modify (set_user uid (new_user_state time uid))) s
]

abbrev pub is_some : {A : Type 0} → Option A → Bool
is_some none = false
is_some (some _) = true

-- `user, ok := s.users[id]; if !ok { return ErrUserNotFound }`
abbrev pub require_user : ℤ → Action (Unit {0})
require_user uid s = (if is_some (lookup uid s.users) then ok tt else err user_not_found, s)

abbrev store_snapshot : Option Snapshot → Map ℤ Snapshot → Shard → Outcome (Unit {0}) × Shard
store_snapshot none m s = (panic, s)
store_snapshot (some snap) m s =
    (ok tt, record s { snapshot_store = some (insert snap.user_id snap m) })

-- `updateSnapshot`. One shard's updates of the store are sequential.
unfoldable pub update_snapshot : ℤ → Action (Unit {0})
update_snapshot uid s = elim s.snapshot_store [
  | none ↦ (ok tt, s)
  | some m ↦ elim (lookup uid s.users) [
    | none ↦ (ok tt, s)
    | some u ↦
        store_snapshot (create_snapshot (s.clock 0) u) m (record s { clock = rest_of s.clock })
  ]
]
