-- ===== src/Asset/Shard/Options.antt =====
-- The option positions of a user, which no operation of a shard touches: they decide whether
-- publishing the user's snapshot panics.
use mathlib.Core.Path.{fun_ext}
use little_cex.Prelude.{
  ap, ℤ, ◌≡◌, refl, false, Map, Bytes, int_eq, eqb_ℤ_iff, lookup-insert, arith,
}
use little_cex.Asset.Model.{
  Asset, UserState, OptionPosition, new_user_state, get_asset, create_snapshot, is_nonempty,
}
use little_cex.Asset.Shard.State.{
  Shard, Users, user_at, update_user, ensure_asset, set_asset, update_asset, set_active, touch_at,
  set_count, count_orders, get_or_create_user, update_snapshot, ok,
}

unfoldable pub options_of : Users → ℤ → Map Bytes OptionPosition
options_of users uid = (user_at uid users).options

options_of-update_user :
    (uid : ℤ) (f : UserState → UserState) (users : Users)
    → ((u : UserState) → (f u).options ≡ u.options)
    → options_of (update_user uid f users) ≡ options_of users
unfolding options_of update_user user_at
options_of-update_user uid f users h = fun_ext (λ v. ground (
  arith,
  lookup-insert v uid (f (user_at uid users)) users,
  h (user_at uid users),
  eqb_ℤ_iff v uid,
))

pub options_of-ensure_asset :
    (uid : ℤ) (symbol : Bytes) (users : Users)
    → options_of (ensure_asset uid symbol users) ≡ options_of users
unfolding ensure_asset get_asset
options_of-ensure_asset uid symbol users =
    options_of-update_user uid (get_asset symbol) users (λ u. ground arith)

pub options_of-update_asset :
    (uid : ℤ) (symbol : Bytes) (f : Asset → Asset) (users : Users)
    → options_of (update_asset uid symbol f users) ≡ options_of users
unfolding update_asset
options_of-update_asset uid symbol f users =
    options_of-update_user uid (set_asset symbol f) users (λ u. refl)

pub options_of-touch_at :
    (uid time : ℤ) (users : Users) → options_of (touch_at uid time users) ≡ options_of users
unfolding touch_at
options_of-touch_at uid time users = options_of-update_user uid (set_active time) users (λ u. refl)

pub options_of-count_orders :
    (uid : ℤ) (f : ℤ → ℤ) (users : Users) → options_of (count_orders uid f users) ≡ options_of users
unfolding count_orders
options_of-count_orders uid f users = options_of-update_user uid (set_count f) users (λ u. refl)

pub options_of-get_or_create_user :
    (uid : ℤ) (s : Shard) → options_of (get_or_create_user uid s).1.users ≡ options_of s.users
unfolding get_or_create_user options_of user_at new_user_state
options_of-get_or_create_user uid s = fun_ext (λ v.
    ground (arith, lookup-insert v uid (new_user_state (s.clock 0) uid) s.users, eqb_ℤ_iff v uid))

pub update_snapshot-ok :
    (uid : ℤ) (s : Shard) (users : Users)
    → options_of s.users ≡ options_of users
    → is_nonempty (options_of users uid) ≡ false
    → (update_snapshot uid s).0 ≡ ok tt
unfolding update_snapshot options_of user_at create_snapshot
update_snapshot-ok uid s users same h =
    ground (arith, ap (λ (o : ℤ → Map Bytes OptionPosition). o uid) same)

pub ruleset options_laws = (
  options_of-ensure_asset, options_of-update_asset, options_of-touch_at, options_of-count_orders,
  options_of-get_or_create_user,
)
