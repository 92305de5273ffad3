-- ===== src/Asset/Shard/Remembered.antt =====
-- The idempotency keys of a shard, which no command takes out (pkg/asset/shard.go).
use little_cex.Prelude.{
  ◌≡◌, inl, inr, refl, ℤ, Bool, true, false, Option, none, some, List, [], ◌∷◌, Bytes, arith,
  Bool-cases, int_eq, bytes_eq, nat_eq, lookup, pair_eq,
}
use little_cex.Prelude.{lookup-insert}
use little_cex.Asset.Shard.State.{
  Shard, CmdType, reserve, release, transfer, add_balance, deduct_balance, unset, Command, Outcome,
  ok, err, panic, update_snapshot, get_or_create_user, ◌>>◌, is_some, Error, wal_write,
  duplicate_command,
}
use little_cex.Asset.Shard.Operations.{
  do_reserve, do_release, do_transfer, do_add_balance, do_deduct_balance, take_fee, pay_receiver,
}
use little_cex.Asset.Shard.Handler.{
  execute, dispatch, with_stats, count_command, remember, send_result, log_command, conclude,
  run_logged, handle_command, process, is_duplicate,
}

get_or_create_user-applied :
    (uid : ℤ) (s : Shard) → (get_or_create_user uid s).1.applied_cmds ≡ s.applied_cmds
unfolding get_or_create_user
get_or_create_user-applied uid s = ground arith

update_snapshot-applied :
    (uid : ℤ) (s : Shard) → (update_snapshot uid s).1.applied_cmds ≡ s.applied_cmds
unfolding update_snapshot
update_snapshot-applied uid s = ground arith

do_reserve-applied :
    (cmd : Command) (s : Shard) → (do_reserve cmd s).1.applied_cmds ≡ s.applied_cmds
unfolding do_reserve
do_reserve-applied cmd s = ground (arith, get_or_create_user-applied cmd.user_id s)

do_release-applied :
    (cmd : Command) (s : Shard) → (do_release cmd s).1.applied_cmds ≡ s.applied_cmds
unfolding do_release
do_release-applied cmd s = ground arith

take_fee-applied : (cmd : Command) (s : Shard) → (take_fee cmd s).1.applied_cmds ≡ s.applied_cmds
unfolding take_fee
take_fee-applied cmd s = ground arith

pay_receiver-applied :
    (cmd : Command) (s : Shard) → (pay_receiver cmd s).1.applied_cmds ≡ s.applied_cmds
unfolding pay_receiver
pay_receiver-applied cmd s = grind (arith, get_or_create_user-applied, update_snapshot-applied)

do_transfer-applied :
    (cmd : Command) (s : Shard) → (do_transfer cmd s).1.applied_cmds ≡ s.applied_cmds
unfolding do_transfer
do_transfer-applied cmd s = grind (arith, take_fee-applied, pay_receiver-applied)

do_add_balance-applied :
    (cmd : Command) (s : Shard) → (do_add_balance cmd s).1.applied_cmds ≡ s.applied_cmds
unfolding do_add_balance
do_add_balance-applied cmd s = ground (arith, get_or_create_user-applied cmd.user_id s)

do_deduct_balance-applied :
    (cmd : Command) (s : Shard) → (do_deduct_balance cmd s).1.applied_cmds ≡ s.applied_cmds
unfolding do_deduct_balance
do_deduct_balance-applied cmd s = ground arith

execute-applied : (cmd : Command) (s : Shard) → (execute cmd s).1.applied_cmds ≡ s.applied_cmds
unfolding execute dispatch
execute-applied cmd s = by_type cmd.type_
  where
    by_type : (t : CmdType) → (dispatch t cmd s).1.applied_cmds ≡ s.applied_cmds
    by_type reserve = do_reserve-applied cmd s
    by_type release = do_release-applied cmd s
    by_type transfer = do_transfer-applied cmd s
    by_type add_balance = do_add_balance-applied cmd s
    by_type deduct_balance = do_deduct_balance-applied cmd s
    by_type unset = refl

-- A key that is known is known after a command, whatever becomes of it.
abbrev pub knows : Bytes → Shard → Bool
knows key s = is_some (lookup key s.applied_cmds)

knows-remember :
    (key id : Bytes) (s : Shard) → knows key s ≡ true → knows key (remember id s) ≡ true
unfolding remember
knows-remember key id s h = ground (arith, lookup-insert key id tt s.applied_cmds)

send_result-applied :
    (cmd : Command) (a : Option Error) (s : Shard)
    → (send_result cmd a s).applied_cmds ≡ s.applied_cmds
unfolding send_result
send_result-applied cmd a s = ground arith

knows-conclude :
    (key : Bytes) (cmd : Command) (r : Outcome (Unit {0})) (s : Shard)
    → knows key s ≡ true
    → knows key (conclude cmd (r, s)).1 ≡ true
unfolding conclude
knows-conclude key cmd (ok _) s h =
    rw (update_snapshot-applied cmd.user_id _, send_result-applied cmd none _)
      (knows-remember key cmd.cmd_id _ h)
knows-conclude key cmd (err e) s h = rw (send_result-applied cmd (some e) _) h
knows-conclude key cmd panic s h = h

knows-run_logged :
    (key : Bytes) (cmd : Command) (r : Bool × Shard)
    → knows key r.1 ≡ true
    → knows key (run_logged cmd r).1 ≡ true
unfolding run_logged
knows-run_logged key cmd (true, s) h =
    knows-conclude key cmd (execute cmd s).0 (execute cmd s).1 (rw (execute-applied cmd s) h)
knows-run_logged key cmd (false, s) h = rw (send_result-applied cmd (some wal_write) s) h

log_command-applied :
    (cmd : Command) (s : Shard) → (log_command cmd s).1.applied_cmds ≡ s.applied_cmds
unfolding log_command
log_command-applied cmd s = ground arith

knows-handle_command :
    (key : Bytes) (cmd : Command) (s : Shard)
    → knows key s ≡ true
    → knows key (handle_command cmd s).1 ≡ true
unfolding handle_command
knows-handle_command key cmd s h =
    elim (Bool-cases (is_duplicate cmd (with_stats count_command s))) [
      | inl old ↦ rw (old, send_result-applied cmd (some duplicate_command) _) h
      | inr new ↦ rw new (
          knows-run_logged key cmd (log_command cmd (with_stats count_command s))
            (rw (log_command-applied cmd (with_stats count_command s)) h))
    ]

-- The queue goes on after an answer, and stops at a panic.
pub knows-process :
    (key : Bytes) (cmds : List Command) (s : Shard)
    → knows key s ≡ true
    → knows key (process cmds s).1 ≡ true
unfolding process
knows-process key [] s h = h
knows-process key (cmd ∷ cmds) s h =
    go (λ t. knows-process key cmds t) (handle_command cmd s) (knows-handle_command key cmd s h)
  where
    go :
        ((t : Shard) → knows key t ≡ true → knows key (process cmds t).1 ≡ true)
        → (r : Outcome (Unit {0}) × Shard) → knows key r.1 ≡ true
        → knows key (((λ (z : Shard). r) >> process cmds) s).1 ≡ true
    go later (ok _, t) k = later t k
    go later (err e, t) k = k
    go later (panic, t) k = k
