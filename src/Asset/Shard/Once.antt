-- ===== src/Asset/Shard/Once.antt =====
-- The handler as a whole: what it logs, what it answers, and that a command takes effect once.
use little_cex.Prelude.{
  List, ◌≡◌, refl, sym, ap, ◌∙◌, subst, Bool, true, false, Bool-cases, inl, inr, if◌then◌else◌,
  Option, some, Bytes, bytes_eq, lookup, lookup-insert_self, arith,
}
use little_cex.Asset.Model.{is_nonempty}
use little_cex.Asset.Shard.State.{
  Users, Shard, Command, Outcome, ok, err, panic, Error, duplicate_command, wal_write,
  update_snapshot, is_some,
}
use little_cex.Asset.Shard.Operations.{is_nonempty_text}
use little_cex.Asset.Shard.Handler.{
  execute, with_stats, count_command, remember, send_result, is_duplicate, log_command, conclude,
  run_logged, handle_command, process,
}
use little_cex.Asset.Shard.Remembered.{knows-process}
use little_cex.Asset.Shard.Balances.{users-update_snapshot}
use little_cex.Asset.Shard.Options.{options_of}
use little_cex.Asset.Shard.Ledger.{Reply, view, execute_spec}
use little_cex.Asset.Shard.Execute.{execute-refines}

-- The shard once a command is counted, and written to the log if there is one.
abbrev pub logged_shard : Command → Shard → Shard
logged_shard cmd s = (log_command cmd (with_stats count_command s)).1

abbrev pub log_accepts : Command → Shard → Bool
log_accepts cmd s = (log_command cmd (with_stats count_command s)).0

users-logged_shard : (cmd : Command) (s : Shard) → (logged_shard cmd s).users ≡ s.users
unfolding log_command
users-logged_shard cmd s = ground arith

users-send_result :
    (cmd : Command) (a : Option Error) (s : Shard) → (send_result cmd a s).users ≡ s.users
unfolding send_result
users-send_result cmd a s = ground arith

users-remember : (id : Bytes) (s : Shard) → (remember id s).users ≡ s.users
unfolding remember
users-remember id s = ground arith

users-conclude :
    (cmd : Command) (r : Outcome (Unit {0})) (s : Shard) → (conclude cmd (r, s)).1.users ≡ s.users
unfolding conclude
users-conclude cmd (ok _) s = simp (users-update_snapshot, users-send_result, users-remember)
users-conclude cmd (err e) s = simp users-send_result
users-conclude cmd panic s = refl

duplicate_of_counted :
    (cmd : Command) (s : Shard) → is_duplicate cmd (with_stats count_command s) ≡ is_duplicate cmd s
unfolding is_duplicate
duplicate_of_counted cmd s = refl

conclude-view :
    (cmd : Command) (r : Outcome (Unit {0}) × Shard)
    → view (conclude cmd r).1.users ≡ view r.1.users
conclude-view cmd r = ap view (users-conclude cmd r.0 r.1)

run_logged-view :
    (cmd : Command) (r : Bool × Shard) (s : Shard)
    → is_nonempty (options_of s.users cmd.to_user_id) ≡ false
    → r.1.users ≡ s.users
    → view (run_logged cmd r).1.users
      ≡ (if r.0 then (execute_spec cmd (view s.users)).1 else view s.users)
unfolding run_logged
run_logged-view cmd (true, s') s plain same =
    conclude-view cmd (execute cmd s')
    ∙ ap (λ (t : Reply). t.1)
        (execute-refines cmd s'
          (ap (λ (m : Users). is_nonempty (options_of m cmd.to_user_id)) same ∙ plain))
    ∙ ap (λ (m : Users). (execute_spec cmd (view m)).1) same
run_logged-view cmd (false, s') s plain same =
    ap view (users-send_result cmd (some wal_write) s' ∙ same)

-- Where the user that the command names as its receiver holds no options, the handler changes the
-- balances as the ledger promises for the command, exactly when the command is new and the log
-- takes it; otherwise it leaves them.
pub handle_command-refines :
    (cmd : Command) (s : Shard)
    → is_nonempty (options_of s.users cmd.to_user_id) ≡ false
    → view (handle_command cmd s).1.users ≡ (
        if is_duplicate cmd s
        then view s.users
        else if log_accepts cmd s
        then (execute_spec cmd (view s.users)).1
        else view s.users)
unfolding handle_command
handle_command-refines cmd s plain = elim (Bool-cases (is_duplicate cmd s)) [
  | inl old ↦ rw (duplicate_of_counted cmd s, old) (ap view (users-send_result cmd _ _))
  | inr new ↦
      rw (duplicate_of_counted cmd s, new)
        (run_logged-view cmd (log_command cmd (with_stats count_command s)) s plain
          (users-logged_shard cmd s))
]

applied-conclude :
    (cmd : Command) (s : Shard)
    → is_nonempty_text cmd.cmd_id ≡ true
    → is_some (lookup cmd.cmd_id (conclude cmd (ok tt, s)).1.applied_cmds) ≡ true
unfolding conclude remember send_result update_snapshot
applied-conclude cmd s h = ground (arith, lookup-insert_self cmd.cmd_id tt s.applied_cmds)

run_logged-applied :
    (cmd : Command) (r : Bool × Shard)
    → is_nonempty_text cmd.cmd_id ≡ true
    → r.0 ≡ true
    → (execute cmd r.1).0 ≡ ok tt
    → is_some (lookup cmd.cmd_id (run_logged cmd r).1.applied_cmds) ≡ true
unfolding run_logged
run_logged-applied cmd (true, s) h go done =
    subst
      (λ (o : Outcome (Unit {0})).
        is_some (lookup cmd.cmd_id (conclude cmd (o, (execute cmd s).1)).1.applied_cmds) ≡ true)
      (sym done) (applied-conclude cmd (execute cmd s).1 h)
run_logged-applied cmd (false, s) h go done = cc

applied_of_handled :
    (cmd : Command) (s : Shard)
    → is_nonempty_text cmd.cmd_id ≡ true
    → is_duplicate cmd s ≡ false
    → log_accepts cmd s ≡ true
    → (execute cmd (logged_shard cmd s)).0 ≡ ok tt
    → is_some (lookup cmd.cmd_id (handle_command cmd s).1.applied_cmds) ≡ true
unfolding handle_command
applied_of_handled cmd s h new go done =
    rw (duplicate_of_counted cmd s, new)
      (run_logged-applied cmd (log_command cmd (with_stats count_command s)) h go done)

-- What a repeated command leaves of a shard: everything but the counters and its answer.
pub record IsRepeat (again : Command) (s s' : Shard) : Type 0 where
  pub users_kept : s'.users ≡ s.users
  pub keys_kept : s'.applied_cmds ≡ s.applied_cmds
  pub snapshots_kept : s'.snapshot_store ≡ s.snapshot_store
  pub log_kept : s'.wal ≡ s.wal
  pub answered : s'.sent ≡ (send_result again (some duplicate_command) s).sent

applied-IsRepeat :
    (again : Command) (s : Shard)
    → is_nonempty_text again.cmd_id ≡ true
    → is_some (lookup again.cmd_id s.applied_cmds) ≡ true
    → IsRepeat again s (handle_command again s).1
unfolding handle_command is_duplicate send_result
applied-IsRepeat again s h old = ground arith

-- Once a command with a key has succeeded, any later command with its key, whatever commands are
-- handled between the two, is answered as a duplicate, and changes no user, key, snapshot or log.
pub handle_command-once :
    (cmd again : Command) (between : List Command) (s : Shard)
    → again.cmd_id ≡ cmd.cmd_id
    → is_nonempty_text cmd.cmd_id ≡ true
    → is_duplicate cmd s ≡ false
    → log_accepts cmd s ≡ true
    → (execute cmd (logged_shard cmd s)).0 ≡ ok tt
    → IsRepeat again
        (process between (handle_command cmd s).1).1
        (handle_command again (process between (handle_command cmd s).1).1).1
handle_command-once cmd again between s same h new go done =
    applied-IsRepeat again (process between (handle_command cmd s).1).1
      (ap is_nonempty_text same ∙ h)
      (ap
          (λ (id : Bytes).
            is_some (lookup id (process between (handle_command cmd s).1).1.applied_cmds))
          same
        ∙ knows-process cmd.cmd_id between (handle_command cmd s).1
            (applied_of_handled cmd s h new go done))
