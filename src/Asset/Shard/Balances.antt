-- ===== src/Asset/Shard/Balances.antt =====
-- The view of a shard that forgets how balances are stored: which users it knows, and every
-- balance, zero where the maps have no entry. Each step of the operations has its law here.
use little_cex.Prelude.{
  ℤ, ◌≡◌, refl, ap, ◌∙◌, Bool, true, ◌&&◌, Bytes, bytes_eq, int_eq, lookup, lookup-insert, eqb_ℤ,
  eqb_ℤ_iff, bytes_beq, bytes_beq_iff, if◌then◌else◌, arith,
}
use mathlib.Core.Path.{fun_ext}
use little_cex.Asset.Model.{Asset, UserState, new_user_state, get_asset, asset_in, zero_asset}
use little_cex.Asset.Shard.State.{
  Shard, Users, user_at, update_user, ensure_asset, asset_at, set_asset, update_asset, set_active,
  touch_at, set_count, count_orders, get_or_create_user, update_snapshot, is_some, ok,
}

abbrev pub Sheet : Type 0
Sheet = ℤ → Bytes → Asset

unfoldable pub sheet : Users → Sheet
sheet users uid symbol = asset_at uid symbol users

unfoldable pub known : Users → ℤ → Bool
known users uid = is_some (lookup uid users)

unfoldable pub upd : ℤ → Bytes → (Asset → Asset) → Sheet → Sheet
upd uid symbol f b u y = if eqb_ℤ u uid && bytes_beq y symbol then f (b u y) else b u y

unfoldable pub add_known : ℤ → (ℤ → Bool) → ℤ → Bool
add_known uid k u = if eqb_ℤ u uid then true else k u

user_at-update_user :
    (v uid : ℤ) (f : UserState → UserState) (users : Users)
    → user_at v (update_user uid f users)
      ≡ (if eqb_ℤ v uid then f (user_at uid users) else user_at v users)
unfolding user_at update_user
user_at-update_user v uid f users =
    ground (arith, lookup-insert v uid (f (user_at uid users)) users)

asset_in-set_asset :
    (symbol y : Bytes) (f : Asset → Asset) (u : UserState)
    → asset_in (set_asset symbol f u) y
      ≡ (if bytes_beq y symbol then f (asset_in u y) else asset_in u y)
unfolding asset_in
asset_in-set_asset symbol y f u =
    ground (arith, bytes_beq_iff y symbol, lookup-insert y symbol (f (asset_in u symbol)) u.assets)

asset_in-get_asset :
    (symbol y : Bytes) (u : UserState) → asset_in (get_asset symbol u) y ≡ asset_in u y
unfolding asset_in get_asset
asset_in-get_asset symbol y u =
    ground (arith, bytes_beq_iff y symbol, lookup-insert y symbol zero_asset u.assets)

-- A step on one user that leaves its assets alone.
sheet-update_user :
    (uid : ℤ) (f : UserState → UserState) (users : Users)
    → ((u : UserState) (y : Bytes) → asset_in (f u) y ≡ asset_in u y)
    → sheet (update_user uid f users) ≡ sheet users
unfolding sheet asset_at
sheet-update_user uid f users h = fun_ext (λ u. fun_ext (λ y.
    ground (arith, user_at-update_user u uid f users, h (user_at uid users) y, eqb_ℤ_iff u uid)))

pub sheet-ensure_asset :
    (uid : ℤ) (symbol : Bytes) (users : Users) → sheet (ensure_asset uid symbol users) ≡ sheet users
unfolding ensure_asset
sheet-ensure_asset uid symbol users =
    sheet-update_user uid (get_asset symbol) users (λ u y. asset_in-get_asset symbol y u)

pub sheet-touch_at : (uid time : ℤ) (users : Users) → sheet (touch_at uid time users) ≡ sheet users
unfolding touch_at asset_in
sheet-touch_at uid time users = sheet-update_user uid (set_active time) users (λ u y. refl)

pub sheet-count_orders :
    (uid : ℤ) (f : ℤ → ℤ) (users : Users) → sheet (count_orders uid f users) ≡ sheet users
unfolding count_orders asset_in
sheet-count_orders uid f users = sheet-update_user uid (set_count f) users (λ u y. refl)

pub sheet-update_asset :
    (uid : ℤ) (symbol : Bytes) (f : Asset → Asset) (users : Users)
    → sheet (update_asset uid symbol f users) ≡ upd uid symbol f (sheet users)
unfolding sheet asset_at update_asset upd
sheet-update_asset uid symbol f users = fun_ext (λ u. fun_ext (λ y. ground (
  arith,
  user_at-update_user u uid (set_asset symbol f) users,
  asset_in-set_asset symbol y f (user_at uid users),
  eqb_ℤ_iff u uid,
)))

known-update_user :
    (uid : ℤ) (f : UserState → UserState) (users : Users)
    → known (update_user uid f users) ≡ add_known uid (known users)
unfolding known update_user add_known
known-update_user uid f users =
    fun_ext (λ u. ground (arith, lookup-insert u uid (f (user_at uid users)) users))

pub asset_at-eq-sheet :
    (uid : ℤ) (symbol : Bytes) (users : Users) → asset_at uid symbol users ≡ sheet users uid symbol
unfolding sheet
asset_at-eq-sheet uid symbol users = refl

pub get_or_create_user-ok : (uid : ℤ) (s : Shard) → (get_or_create_user uid s).0 ≡ ok tt
unfolding get_or_create_user
get_or_create_user-ok uid s = ground arith

pub sheet-get_or_create_user :
    (uid : ℤ) (s : Shard) → sheet (get_or_create_user uid s).1.users ≡ sheet s.users
unfolding get_or_create_user sheet asset_at user_at asset_in new_user_state lookup
sheet-get_or_create_user uid s = fun_ext (λ u. fun_ext (λ y.
    ground (arith, lookup-insert u uid (new_user_state (s.clock 0) uid) s.users, eqb_ℤ_iff u uid)))

pub known-get_or_create_user :
    (uid : ℤ) (s : Shard) → known (get_or_create_user uid s).1.users ≡ add_known uid (known s.users)
unfolding get_or_create_user known add_known
known-get_or_create_user uid s = fun_ext (λ u.
    ground (arith, lookup-insert u uid (new_user_state (s.clock 0) uid) s.users, eqb_ℤ_iff u uid))

pub known-ensure_asset :
    (uid : ℤ) (symbol : Bytes) (users : Users)
    → known (ensure_asset uid symbol users) ≡ add_known uid (known users)
unfolding ensure_asset
known-ensure_asset uid symbol users = known-update_user uid (get_asset symbol) users

pub known-touch_at :
    (uid time : ℤ) (users : Users) → known (touch_at uid time users) ≡ add_known uid (known users)
unfolding touch_at
known-touch_at uid time users = known-update_user uid (set_active time) users

pub known-count_orders :
    (uid : ℤ) (f : ℤ → ℤ) (users : Users)
    → known (count_orders uid f users) ≡ add_known uid (known users)
unfolding count_orders
known-count_orders uid f users = known-update_user uid (set_count f) users

pub known-update_asset :
    (uid : ℤ) (symbol : Bytes) (f : Asset → Asset) (users : Users)
    → known (update_asset uid symbol f users) ≡ add_known uid (known users)
unfolding update_asset
known-update_asset uid symbol f users = known-update_user uid (set_asset symbol f) users

pub add_known-add_known :
    (uid : ℤ) (k : ℤ → Bool) → add_known uid (add_known uid k) ≡ add_known uid k
unfolding add_known
add_known-add_known uid k = fun_ext (λ u. ground arith)

pub add_known-known : (uid : ℤ) (k : ℤ → Bool) → k uid ≡ true → add_known uid k ≡ k
unfolding add_known
add_known-known uid k h = fun_ext (λ u. ground (arith, eqb_ℤ_iff u uid))

pub add_known-true : (u uid : ℤ) (k : ℤ → Bool) → k u ≡ true → add_known uid k u ≡ true
unfolding add_known
add_known-true u uid k h = ground arith

pub users-update_snapshot : (uid : ℤ) (s : Shard) → (update_snapshot uid s).1.users ≡ s.users
unfolding update_snapshot
users-update_snapshot uid s = ground arith

pub known_lem : (uid : ℤ) (users : Users) → is_some (lookup uid users) ≡ known users uid
unfolding known
known_lem uid users = refl

-- The balance that an operation reads.
pub asset_at-ensure_asset :
    (uid : ℤ) (symbol : Bytes) (users : Users)
    → asset_at uid symbol (ensure_asset uid symbol users) ≡ sheet users uid symbol
asset_at-ensure_asset uid symbol users =
    asset_at-eq-sheet uid symbol (ensure_asset uid symbol users)
    ∙ ap (λ (b : Sheet). b uid symbol) (sheet-ensure_asset uid symbol users)

pub asset_at-get_or_create_user :
    (uid : ℤ) (symbol : Bytes) (s : Shard)
    → asset_at uid symbol (ensure_asset uid symbol (get_or_create_user uid s).1.users)
      ≡ sheet s.users uid symbol
asset_at-get_or_create_user uid symbol s =
    asset_at-ensure_asset uid symbol (get_or_create_user uid s).1.users
    ∙ ap (λ (b : Sheet). b uid symbol) (sheet-get_or_create_user uid s)

pub ruleset view_laws = (
  asset_at-eq-sheet, sheet-ensure_asset, sheet-touch_at, sheet-count_orders, sheet-update_asset,
  sheet-get_or_create_user, known-get_or_create_user, known-ensure_asset, known-touch_at,
  known-count_orders, known-update_asset, add_known-add_known, users-update_snapshot,
)
