-- ===== src/Asset/Shard/Checkpoint.antt =====
-- Checkpoints of a shard (`CreateCheckpoint`, `RecoverFromCheckpoint` of pkg/asset/shard.go). The
-- JSON library's `Marshal` and `Unmarshal` of the map of users are parameters; `Marshal` does not
-- fail on it, and `Unmarshal` reads into the map that is there.
use little_cex.Prelude.{ℕ, Option, none, some, Bytes}
use little_cex.Asset.Wal
use little_cex.Asset.Wal.{Recovered, Wal, load_snapshot, checkpoint_to, recover}
use little_cex.Asset.Shard.State.{Shard, Users, Error}
use little_cex.Asset.Shard.Handler.{replay_after, set_seq}

-- A snapshot that cannot be read or parsed, or what the replay came to.
pub data Restored : Type 0 where
  unloadable : Restored
  replayed : Recovered Error → Restored

module _ (marshal : Users → Bytes) (unmarshal : Bytes → Users → Option Users) where
  -- `CreateCheckpoint`, where the file system does not fail.
  unfoldable pub create_checkpoint : Shard → Shard
  create_checkpoint s = elim s.wal [
    | none ↦ s
    | some w ↦ record s { wal = some (checkpoint_to (marshal s.users) w.seq w) }
  ]

  unfoldable pub load_users : Option Bytes → Shard → Option Shard
  load_users none s = some s
  load_users (some state) s = elim (unmarshal state s.users) [
    | none ↦ none
    | some users ↦ some (record s { users = users })
  ]

  abbrev replay_log : ℕ → Wal → Shard → Restored × Shard
  replay_log seq w s =
      let (r, s') = set_seq w (recover (replay_after seq) w.log s) in (replayed r, s')

  abbrev restore : Wal → Shard → Option (Option Bytes × ℕ) → Restored × Shard
  restore w s none = (unloadable, s)
  restore w s (some (state, seq)) = elim (load_users state s) [
    | none ↦ (unloadable, s)
    | some s' ↦ replay_log seq w s'
  ]

  -- `RecoverFromCheckpoint`
  unfoldable pub recover_from_checkpoint : Shard → Restored × Shard
  recover_from_checkpoint s = elim s.wal [
    | none ↦ (replayed (Wal.finished 0), s)
    | some w ↦ restore w s (load_snapshot w)
  ]
