-- ===== src/Asset/Tests/Restarts.antt =====
-- Concrete runs of the log and of the recoveries.
use little_cex.Prelude.{
  ◌++◌, List, ◌≢◌, ◌≡◌, refl, pos, some, [], ◌∷◌, ascii, int_eq, bytes_eq, lookup, insert, arith,
}
use little_cex.Asset.Model.{asset_in, get_asset}
use little_cex.Asset.Wal
use little_cex.Asset.Wal.{
  numbered, checkpoint_to, Wal, WalEntry, encode_entry, decode_entry, recover, frame,
}
use little_cex.Asset.Wal.RoundTrip.{IsEncodable, decode_entry-encode_entry}
use little_cex.Asset.Wal.Replay.{frames, replay, recover-frames}
use little_cex.Asset.Shard.State.{
  reserve, transfer, insufficient_balance, user_at, asset_at, get_or_create_user, ensure_asset,
  update_user,
}
use little_cex.Asset.Shard.Operations.{do_reserve}
use little_cex.Asset.Shard.Handler.{
  wal_entry_to_cmd, replay_after, execute, dispatch, replay_entry, cmd_to_wal_entry,
}
use little_cex.Asset.Wal.Enough.{recover_ends}
use little_cex.Asset.Shard.Rejected.{recover-refused}
use little_cex.Asset.Shard.Checkpoint.{create_checkpoint, recover_from_checkpoint, replayed}
use little_cex.Asset.Shard.Restart.{
  write_all, number_all, last_seq, restarted, write-replay_after, started_on,
  recover_from_checkpoint-create_checkpoint,
}
use little_cex.Asset.Tests.Data.{empty_wal, shard, command, logged, logged-IsEncodable}

abbrev first : WalEntry
first = logged transfer 20 empty_wal

first-IsEncodable : IsEncodable first
first-IsEncodable = logged-IsEncodable transfer 20 empty_wal (omega arith)

decode_entry-encode_entry_example : decode_entry (encode_entry first) ≡ Wal.ok first
decode_entry-encode_entry_example = decode_entry-encode_entry first first-IsEncodable

recover-frames_example :
    recover replay_entry (frames (first ∷ first ∷ [])) shard
    ≡ replay replay_entry (first ∷ first ∷ []) 0 shard
recover-frames_example =
    recover-frames replay_entry (first ∷ first ∷ []) shard
      (first-IsEncodable, (first-IsEncodable, tt))

recover_ends_example : (recover replay_entry (ascii "torn") shard).0 ≢ Wal.out_of_fuel
recover_ends_example = recover_ends replay_entry (ascii "torn") shard

-- A checkpoint at 3, a restart, and a transfer.
abbrev after_restart : Wal
after_restart = restarted [] 3 empty_wal shard

abbrev transfers : List WalEntry
transfers = cmd_to_wal_entry (command transfer 20) ∷ []

write-replay_after_example :
    recover (replay_after 3) (write_all (pos 5) transfers after_restart).log shard
    ≡ (Wal.finished (last_seq 0 (number_all (pos 5) transfers after_restart)), shard)
write-replay_after_example =
    write-replay_after [] 3 empty_wal shard (pos 5) transfers (omega arith) (omega arith)
      (λ i. refl) (logged-IsEncodable transfer 20 after_restart (omega arith), tt)

recover_from_checkpoint-create_checkpoint_example :
    let saved =
      create_checkpoint
        (λ _. [])
        (λ _ _. some shard.users)
        (record shard { wal = some empty_wal }) in
    let (r, s') =
      recover_from_checkpoint (λ _. []) (λ _ _. some shard.users) (started_on saved.wal shard) in
    (r ≡ replayed (Wal.finished 0))
    × (s'.users ≡ shard.users)
    × (s'.applied_cmds ≡ [])
    × (s'.wal ≡ some (record (checkpoint_to [] 0 empty_wal) { seq = 0 }))
recover_from_checkpoint-create_checkpoint_example =
    recover_from_checkpoint-create_checkpoint (λ _. []) (λ _ _. some shard.users) shard empty_wal
      shard.users refl

-- A reservation of more than the user has.
abbrev overdraft : WalEntry
overdraft = logged reserve 101 empty_wal

overdraft_refusal : (replay_entry overdraft shard).0 ≡ Wal.refused insufficient_balance
unfolding replay_entry wal_entry_to_cmd cmd_to_wal_entry numbered execute dispatch do_reserve
    get_or_create_user ensure_asset update_user get_asset asset_at user_at asset_in lookup insert
overdraft_refusal = refl

nothing_before : replay replay_entry [] 0 shard ≡ (Wal.finished 0, shard)
unfolding replay
nothing_before = refl

-- The transfer behind it is not replayed, and neither is what is torn behind that.
recover-refused_example :
    recover replay_entry
      (frames [] ++ (frame (encode_entry overdraft) ++ (frames (first ∷ []) ++ (7 ∷ []))))
      shard
    ≡ (Wal.apply_failed 0 insufficient_balance, (replay_entry overdraft shard).1)
recover-refused_example =
    recover-refused [] (frames (first ∷ []) ++ (7 ∷ [])) overdraft 0 shard shard
      insufficient_balance tt (logged-IsEncodable reserve 101 empty_wal (omega arith))
      nothing_before overdraft_refusal
