-- ===== src/Asset/Tests/Accounts.antt =====
-- Concrete runs of the operations of a shard.
use little_cex.Prelude.{
  get_at, ◌∷◌, [], some, ◌≡◌, refl, pos, true, false, if◌then◌else◌, int_eq, bytes_eq, lookup,
  insert, arith, ◌≤ℤ◌, sub64, wrap64, ◌-ℤ◌, ascii,
}
use little_cex.Asset.Model.{new_user_state, asset_in, get_asset, is_nonempty}
use little_cex.Asset.Wal.{write}
use little_cex.Asset.Shard.State.{
  reserve, transfer, ok, err, insufficient_balance, user_at, asset_at, get_or_create_user,
  ensure_asset, update_user, Command, release,
}
use little_cex.Asset.Shard.Operations.{do_reserve, do_release}
use little_cex.Asset.Shard.Handler.{
  execute, dispatch, log_command, handle_command, is_duplicate, process,
}
use little_cex.Asset.Shard.Balances.{sheet, upd}
use little_cex.Asset.Shard.Options.{options_of}
use little_cex.Asset.Shard.Ledger.{view, execute_spec, fee_spec}
use little_cex.Asset.Shard.Execute.{execute-refines}
use little_cex.Asset.Shard.Sound.{IsSound}
use little_cex.Asset.Shard.Keep.{Fits, execute-IsSound}
use little_cex.Asset.Shard.Effects.{execute-err}
use little_cex.Asset.Shard.Undo.{do_release-do_reserve}
use little_cex.Asset.Shard.Once.{
  handle_command-refines, handle_command-once, IsRepeat, log_accepts, logged_shard,
}
use little_cex.Asset.Engine.{shard_index}
use little_cex.Asset.Tests.Data.{usdt, shard, command}

shard-IsSound : IsSound (view shard.users)
unfolding sheet asset_at user_at asset_in new_user_state lookup
shard-IsSound = record { each = λ u y. ground arith }

receiver_plain : is_nonempty (options_of shard.users (pos 2)) ≡ false
unfolding options_of user_at lookup new_user_state
receiver_plain = refl

execute-refines_example :
    let (r, s') = execute (command transfer 20) shard in
    (r, view s'.users) ≡ execute_spec (command transfer 20) (view shard.users)
execute-refines_example = execute-refines (command transfer 20) shard receiver_plain

transfer-Fits : Fits transfer (command transfer 20) (view shard.users)
unfolding sheet asset_at user_at asset_in new_user_state lookup fee_spec upd sub64 wrap64 ◌-ℤ◌
transfer-Fits = omega arith

execute-IsSound_example : IsSound (view (execute (command transfer 20) shard).1.users)
execute-IsSound_example =
    execute-IsSound (command transfer 20) shard shard-IsSound (omega arith) (omega arith)
      transfer-Fits receiver_plain

refused : (execute (command reserve 101) shard).0 ≡ err insufficient_balance
unfolding execute dispatch do_reserve get_or_create_user ensure_asset update_user get_asset asset_at
    user_at asset_in lookup insert
refused = refl

execute-err_example : sheet (execute (command reserve 101) shard).1.users ≡ sheet shard.users
execute-err_example =
    execute-err (command reserve 101) shard insufficient_balance receiver_plain refused

available_covers : pos 30 ≤ℤ (sheet shard.users (pos 1) usdt).available
unfolding sheet asset_at user_at asset_in lookup
available_covers = omega arith

do_release-do_reserve_example :
    let (r, s') = do_release (command reserve 30) (do_reserve (command reserve 30) shard).1 in
    (r ≡ ok tt) × (sheet s'.users ≡ sheet shard.users)
do_release-do_reserve_example =
    do_release-do_reserve (command reserve 30) shard shard-IsSound (omega arith) available_covers

handle_command-refines_example :
    let cmd = command transfer 20 in
    view (handle_command cmd shard).1.users ≡ (
      if is_duplicate cmd shard
      then view shard.users
      else if log_accepts cmd shard
      then (execute_spec cmd (view shard.users)).1
      else view shard.users)
handle_command-refines_example = handle_command-refines (command transfer 20) shard receiver_plain

first_time : is_duplicate (command reserve 30) shard ≡ false
unfolding is_duplicate lookup
first_time = refl

log_takes : log_accepts (command reserve 30) shard ≡ true
unfolding log_command write
log_takes = refl

reserve_done : (execute (command reserve 30) (logged_shard (command reserve 30) shard)).0 ≡ ok tt
unfolding log_command execute dispatch do_reserve get_or_create_user ensure_asset update_user
    get_asset asset_at user_at asset_in lookup insert
reserve_done = refl

-- A command with another key.
abbrev other : Command
other = record (command release 10) { cmd_id = ascii "other" }

handle_command-once_example :
    let s = (process (other ∷ []) (handle_command (command reserve 30) shard).1).1 in
    IsRepeat (command transfer 5) s (handle_command (command transfer 5) s).1
handle_command-once_example =
    handle_command-once (command reserve 30) (command transfer 5) (other ∷ []) shard refl refl
      first_time log_takes reserve_done

-- The first user is the second shard's.
there : get_at (shard ∷ shard ∷ []) (shard_index 2 (pos 1)) ≡ some shard
unfolding shard_index
there = refl
