-- ===== src/Asset/Shard/Handler.antt =====
-- The handler of a command, and the two recoveries (`handleCommand`, `RecoverFromWAL`,
-- `RecoverFromCheckpoint` of pkg/asset/shard.go).
use little_cex.Prelude.{
  ℕ, ◌+◌, pos, Bool, true, false, Option, none, some, List, [], ◌∷◌, Bytes, bytes_eq, lookup,
  insert, if◌then◌else◌, leb, ◌&&◌,
}
use little_cex.Asset.Wal
use little_cex.Asset.Wal.{
  Wal, WalEntry, EntryType, write, recover, after_recover, Applied, applied, refused, panicked,
  Recovered, rest_of,
}
use little_cex.Asset.Shard.State.{
  Error, duplicate_command, wal_write, CmdType, reserve, release, transfer, add_balance,
  deduct_balance, unset, Command, ShardStats, Shard, Outcome, ok, err, panic, Action, ◌>>◌, is_some,
  update_snapshot,
}
use little_cex.Asset.Shard.Operations.{
  do_reserve, do_release, do_transfer, do_add_balance, do_deduct_balance, is_nonempty_text,
}

abbrev pub entry_type : CmdType → EntryType
entry_type reserve = EntryType.reserve
entry_type release = EntryType.release
entry_type transfer = EntryType.transfer
entry_type add_balance = EntryType.add_balance
entry_type deduct_balance = EntryType.deduct_balance
entry_type unset = EntryType.unknown 0

-- `cmdToWALEntry`: the number and the time are left for `Write`.
unfoldable pub cmd_to_wal_entry : Command → WalEntry
cmd_to_wal_entry cmd = record {
  seq = 0;
  type_ = entry_type cmd.type_;
  timestamp = pos 0;
  cmd_id = cmd.cmd_id;
  user_id = cmd.user_id;
  symbol = cmd.symbol;
  amount = cmd.amount;
  to_user_id = cmd.to_user_id;
  to_symbol = cmd.to_symbol;
  to_amount = cmd.to_amount;
  fee = cmd.fee;
  fee_asset = cmd.fee_asset;
}

abbrev pub cmd_type : EntryType → CmdType
cmd_type EntryType.reserve = reserve
cmd_type EntryType.release = release
cmd_type EntryType.transfer = transfer
cmd_type EntryType.add_balance = add_balance
cmd_type EntryType.deduct_balance = deduct_balance
cmd_type EntryType.checkpoint = unset
cmd_type (EntryType.unknown n) = unset

-- `walEntryToCmd`
unfoldable pub wal_entry_to_cmd : WalEntry → Command
wal_entry_to_cmd e = record {
  type_ = cmd_type e.type_;
  cmd_id = e.cmd_id;
  user_id = e.user_id;
  symbol = e.symbol;
  amount = e.amount;
  to_user_id = e.to_user_id;
  to_symbol = e.to_symbol;
  to_amount = e.to_amount;
  fee = e.fee;
  fee_asset = e.fee_asset;
  result = none;
}

-- The `switch` over the operations.
unfoldable pub dispatch : CmdType → Command → Action (Unit {0})
dispatch reserve cmd s = do_reserve cmd s
dispatch release cmd s = do_release cmd s
dispatch transfer cmd s = do_transfer cmd s
dispatch add_balance cmd s = do_add_balance cmd s
dispatch deduct_balance cmd s = do_deduct_balance cmd s
dispatch unset cmd s = (ok tt, s)

unfoldable pub execute : Command → Action (Unit {0})
execute cmd = dispatch cmd.type_ cmd

abbrev pub with_stats : (ShardStats → ShardStats) → Shard → Shard
with_stats f s = record s { stats = f s.stats }

abbrev pub count_success : CmdType → ShardStats → ShardStats
count_success reserve t = record t { reserve_count = t.reserve_count + 1 }
count_success release t = record t { release_count = t.release_count + 1 }
count_success transfer t = record t { transfer_count = t.transfer_count + 1 }
count_success _ t = t

abbrev pub count_reject : ShardStats → ShardStats
count_reject t = record t { reject_count = t.reject_count + 1 }

-- `s.appliedCmds[cmd.CmdID] = struct{}{}`, unless the key is empty.
unfoldable pub remember : Bytes → Shard → Shard
remember cmd_id s =
    if is_nonempty_text cmd_id
    then record s { applied_cmds = insert cmd_id tt s.applied_cmds }
    else s

-- `sendResult`: a channel of capacity one, which takes its one answer.
unfoldable pub send_result : Command → Option Error → Shard → Shard
send_result cmd answer s = elim cmd.result [
  | none ↦ s
  | some ch ↦ record s { sent = (ch, answer) ∷ s.sent }
]

unfoldable pub is_duplicate : Command → Shard → Bool
is_duplicate cmd s = is_nonempty_text cmd.cmd_id && is_some (lookup cmd.cmd_id s.applied_cmds)

-- The write to the log: whether the handler goes on. The clock is read for the timestamp.
unfoldable pub log_command : Command → Shard → Bool × Shard
log_command cmd s = elim s.wal [
  | none ↦ (true, s)
  | some w ↦
      let (written, w') = write (s.clock 0) (cmd_to_wal_entry cmd) w in
      (written, record s { wal = some w'; clock = rest_of s.clock })
]

-- What follows the operation: counters, the idempotency key, the answer, the snapshot.
unfoldable pub conclude : Command → Outcome (Unit {0}) × Shard → Outcome (Unit {0}) × Shard
conclude cmd (ok _, s) =
    update_snapshot cmd.user_id
      (send_result cmd none (remember cmd.cmd_id (with_stats (count_success cmd.type_) s)))
conclude cmd (err e, s) = (ok tt, send_result cmd (some e) (with_stats count_reject s))
conclude cmd (panic, s) = (panic, s)

unfoldable pub run_logged : Command → Bool × Shard → Outcome (Unit {0}) × Shard
run_logged cmd (true, s) = conclude cmd (execute cmd s)
run_logged cmd (false, s) = (ok tt, send_result cmd (some wal_write) s)

abbrev pub count_command : ShardStats → ShardStats
count_command t = record t { total_commands = t.total_commands + 1 }

abbrev pub count_duplicate : ShardStats → ShardStats
count_duplicate t = record t { duplicate_count = t.duplicate_count + 1 }

unfoldable pub handle_command : Command → Action (Unit {0})
handle_command cmd s =
    let counted = with_stats count_command s in
    if is_duplicate cmd counted
    then (ok tt, send_result cmd (some duplicate_command) (with_stats count_duplicate counted))
    else run_logged cmd (log_command cmd counted)

-- `processLoop` over the commands of its queue, which `drainQueue` ends in the same way. A panic
-- ends the process.
unfoldable pub process : List Command → Action (Unit {0})
process [] s = (ok tt, s)
process (cmd ∷ cmds) s = (handle_command cmd >> process cmds) s

abbrev pub applied_of : Outcome (Unit {0}) → Applied Error
applied_of (ok _) = applied
applied_of (err e) = refused e
applied_of panic = panicked

abbrev pub remember_if_ok : Bytes → Outcome (Unit {0}) × Shard → Applied Error × Shard
remember_if_ok cmd_id (ok _, s) = (applied, remember cmd_id s)
remember_if_ok cmd_id (r, s) = (applied_of r, s)

-- The callback of `RecoverFromWAL`.
unfoldable pub replay_entry : WalEntry → Shard → Applied Error × Shard
replay_entry e s = let cmd = wal_entry_to_cmd e in remember_if_ok cmd.cmd_id (execute cmd s)

abbrev pub set_seq : Wal → Recovered Error × Shard → Recovered Error × Shard
set_seq w (r, s) = (r, record s { wal = some (after_recover r w) })

-- `RecoverFromWAL`
unfoldable pub recover_from_wal : Shard → Recovered Error × Shard
recover_from_wal s = elim s.wal [
  | none ↦ (Wal.finished 0, s)
  | some w ↦ set_seq w (recover replay_entry w.log s)
]

-- The callback of `RecoverFromCheckpoint`, which keeps no idempotency keys.
unfoldable pub replay_after : ℕ → WalEntry → Shard → Applied Error × Shard
replay_after checkpoint_seq e s =
    if leb e.seq checkpoint_seq
    then (applied, s)
    else let (r, s') = execute (wal_entry_to_cmd e) s in (applied_of r, s')
