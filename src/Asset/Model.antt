-- ===== src/Asset/Model.antt =====
-- The data of the account engine (pkg/asset/model.go). Amounts are `int64`; user identifiers are
-- `int64` and serve as keys of maps.
use little_cex.Prelude.{
  ℕ, ℤ, pos, Bool, true, false, ◌||◌, Option, none, some, [], ◌∷◌, Map, Bytes, lookup, insert,
  bytes_eq, if◌then◌else◌, ltb_ℤ, leb_ℤ, add64, map,
}

pub record Asset : Type 0 where
  pub available : ℤ
  pub locked : ℤ

abbrev pub zero_asset : Asset
zero_asset = record { available = pos 0; locked = pos 0 }

unfoldable pub total : Asset → ℤ
total a = add64 a.available a.locked

-- `Asset.Clone`
unfoldable pub clone : Asset → Asset
clone a = record { available = a.available; locked = a.locked }

pub record Position : Type 0 where
  pub symbol : Bytes
  pub size : ℤ
  pub entry_price : ℤ
  pub margin : ℤ
  pub updated_at : ℤ

pub data OptionType : Type 0 where
  call put : OptionType

pub data OptionSide : Type 0 where
  long short : OptionSide

pub record OptionPosition : Type 0 where
  pub symbol : Bytes
  pub underlying : Bytes
  pub side : OptionSide
  pub size : ℤ
  pub option_type : OptionType
  pub strike : ℤ
  pub expiry : ℤ
  pub premium : ℤ
  pub margin : ℤ
  pub updated_at : ℤ

unfoldable pub is_expired : ℤ → OptionPosition → Bool
is_expired now o = leb_ℤ o.expiry now

pub record UserState : Type 0 where
  pub user_id : ℤ
  pub assets : Map Bytes Asset
  pub positions : Map Bytes Position
  pub options : Map Bytes OptionPosition
  pub last_seq : ℕ
  pub last_active_at : ℤ
  pub open_order_count : ℤ
  pub pinned : Bool

-- `now` is the reading of the clock.
unfoldable pub new_user_state : ℤ → ℤ → UserState
new_user_state now uid = record {
  user_id = uid;
  assets = [];
  positions = [];
  options = [];
  last_seq = 0;
  last_active_at = now;
  open_order_count = pos 0;
  pinned = false;
}

abbrev pub or_zero : Option Asset → Asset
or_zero none = zero_asset
or_zero (some a) = a

-- What `GetAsset` points to.
unfoldable pub asset_in : UserState → Bytes → Asset
unfolding lookup
asset_in u symbol = or_zero (lookup symbol u.assets)

-- `GetAsset` enters a zero balance into the map where there is none.
unfoldable pub get_asset : Bytes → UserState → UserState
unfolding lookup insert
get_asset symbol u = elim (lookup symbol u.assets) [
  | some _ ↦ u
  | none ↦ record u { assets = insert symbol zero_asset u.assets }
]

unfoldable pub get_available : UserState → Bytes → ℤ
unfolding lookup
get_available u symbol = elim (lookup symbol u.assets) [ some a ↦ a.available | none ↦ pos 0 ]

abbrev pub is_nonempty : {V : Type 0} → Map Bytes V → Bool
is_nonempty [] = false
is_nonempty (_ ∷ _) = true

unfoldable pub has_locked : Map Bytes Asset → Bool
has_locked [] = false
has_locked ((_, a) ∷ m) = if ltb_ℤ (pos 0) a.locked then true else has_locked m

unfoldable pub can_be_evicted : UserState → Bool
unfolding has_locked
can_be_evicted u =
    if u.pinned || ltb_ℤ (pos 0) u.open_order_count || is_nonempty u.positions
    then false
    else if u.pinned
        || ltb_ℤ (pos 0) u.open_order_count
        || is_nonempty u.positions
        || is_nonempty u.options
    then false
    else if has_locked u.assets
    then false
    else true

pub record Snapshot : Type 0 where
  pub user_id : ℤ
  pub assets : Map Bytes Asset
  pub positions : Map Bytes Position
  pub options : Map Bytes OptionPosition
  pub seq : ℕ
  pub created_at : ℤ

-- `CreateSnapshot` makes no map for the options: copying an option writes to a nil map, which
-- panics, here `none`.
unfoldable pub create_snapshot : ℤ → UserState → Option Snapshot
create_snapshot now u =
    if is_nonempty u.options
    then none
    else some (record {
      user_id = u.user_id;
      assets = map (λ (e : Bytes × Asset). (e.0, clone e.1)) u.assets;
      positions = u.positions;
      options = [];
      seq = u.last_seq;
      created_at = now;
    })
