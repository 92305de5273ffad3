-- ===== src/Asset/Shard/Restart.antt =====
-- A restart from a checkpoint, and the entries that are written after it.
use mathlib.Core.List.{append_assoc, append-nil}
use little_cex.Prelude.{
  ℕ, suc, ◌+◌, ◌^◌, ◌≤◌, ◌<◌, ◌≡◌, refl, ap, ◌∙◌, sym, ℤ, Option, none, some, List, [], ◌∷◌, ◌++◌,
  Bytes, length, arith,
}
use little_cex.Asset.Wal.{
  Wal, WalEntry, write, numbered, frame, encode_entry, checkpoint_to, load_snapshot, recover,
  after_recover, Recovered, finished, applied,
}
use little_cex.Asset.Wal.Replay.{frames, AllEncodable, replay, recover-frames}
use little_cex.Asset.Shard.State.{Shard, Users, Error}
use little_cex.Asset.Shard.Handler.{replay_after}
use little_cex.Asset.Shard.Checkpoint.{
  create_checkpoint, load_users, recover_from_checkpoint, replayed,
}

-- Successive writes, and the entries as they are written.
abbrev pub write_all : ℤ → List WalEntry → Wal → Wal
write_all now [] w = w
write_all now (e ∷ es) w = write_all now es (write now e w).1

abbrev pub number_all : ℤ → List WalEntry → Wal → List WalEntry
number_all now [] w = []
number_all now (e ∷ es) w = numbered now e w ∷ number_all now es (write now e w).1

-- The number of the last entry, or `last` if there is none.
abbrev pub last_seq : ℕ → List WalEntry → ℕ
last_seq last [] = last
last_seq last (e ∷ es) = last_seq e.seq es

abbrev UpTo : ℕ → List WalEntry → Type 0
UpTo n [] = Unit {0}
UpTo n (e ∷ es) = (e.seq ≤ n) × UpTo n es

-- The disk takes every write.
abbrev pub NeverFails : Wal → Type 0
NeverFails w = (i : ℕ) → w.disk i ≡ none

log-write :
    (now : ℤ) (e : WalEntry) (w : Wal)
    → NeverFails w
    → (write now e w).1.log ≡ w.log ++ frame (encode_entry (numbered now e w))
unfolding write
log-write now e w h = rw (h 0) refl

NeverFails-write : (now : ℤ) (e : WalEntry) (w : Wal) → NeverFails w → NeverFails (write now e w).1
unfolding write
NeverFails-write now e w h i = h (suc i)

log-write_all :
    (now : ℤ) (es : List WalEntry) (w : Wal)
    → NeverFails w
    → (write_all now es w).log ≡ w.log ++ frames (number_all now es w)
log-write_all now [] w h = sym (append-nil w.log)
log-write_all now (e ∷ es) w h =
    log-write_all now es (write now e w).1 (NeverFails-write now e w h)
    ∙ ap (λ (bs : Bytes). bs ++ frames (number_all now es (write now e w).1)) (log-write now e w h)
    ∙ append_assoc w.log (frame (encode_entry (numbered now e w))) _

seq-write :
    (now : ℤ) (e : WalEntry) (w : Wal) → w.seq + 1 < 2 ^ 64 → (write now e w).1.seq ≡ w.seq + 1
unfolding write
seq-write now e w h = omega arith

seq-numbered :
    (now : ℤ) (e : WalEntry) (w : Wal) → w.seq + 1 < 2 ^ 64 → (numbered now e w).seq ≡ w.seq + 1
unfolding numbered
seq-numbered now e w h = omega arith

number_all-UpTo :
    (now : ℤ) (es : List WalEntry) (w : Wal) (n : ℕ)
    → n < 2 ^ 64
    → w.seq + length es ≤ n
    → UpTo n (number_all now es w)
number_all-UpTo now [] w n h k = tt
number_all-UpTo now (e ∷ es) w n h k = (
  omega (arith, seq-numbered now e w),
  number_all-UpTo now es (write now e w).1 n h (omega (arith, seq-write now e w)),
)

replay_after_skip :
    (n : ℕ) (e : WalEntry) (s : Shard) → e.seq ≤ n → replay_after n e s ≡ (applied, s)
unfolding replay_after
replay_after_skip n e s h = ground arith

-- Entries that the checkpoint is taken to contain change nothing.
replay-UpTo :
    (n last : ℕ) (es : List WalEntry) (s : Shard)
    → UpTo n es
    → replay (replay_after n) es last s ≡ (finished (last_seq last es), s)
unfolding replay
replay-UpTo n last [] s h = refl
replay-UpTo n last (e ∷ es) s h =
    rw (replay_after_skip n e s h.0, replay_after_skip n e s h.0, replay)
      (replay-UpTo n e.seq es s h.1)

recover_nothing : (n : ℕ) (s : Shard) → recover (replay_after n) [] s ≡ (finished 0, s)
unfolding replay
recover_nothing n s = recover-frames (replay_after n) [] s tt

-- The log as a checkpoint at `n` and a restart leave it.
abbrev pub restarted : Bytes → ℕ → Wal → Shard → Wal
restarted state n w s = after_recover (recover (replay_after n) [] s).0 (checkpoint_to state n w)

restarted_lem :
    (state : Bytes) (n : ℕ) (w : Wal) (s : Shard)
    → restarted state n w s ≡ record (checkpoint_to state n w) { seq = 0 }
unfolding after_recover
restarted_lem state n w s =
    ap (λ (r : Recovered Error × Shard). after_recover r.0 (checkpoint_to state n w))
      (recover_nothing n s)

log-checkpoint_to : (state : Bytes) (n : ℕ) (w : Wal) → (checkpoint_to state n w).log ≡ []
unfolding checkpoint_to
log-checkpoint_to state n w = refl

disk-checkpoint_to :
    (state : Bytes) (n : ℕ) (w : Wal) (i : ℕ) → (checkpoint_to state n w).disk i ≡ w.disk i
unfolding checkpoint_to
disk-checkpoint_to state n w i = refl

-- A checkpoint at `n` empties the log, and the restart after it sets the log's number to 0. So the
-- next entries, up to `n` of them, are written by a disk that takes every write with numbers that
-- the checkpoint is taken to contain: if the format can hold them, the recovery after the next
-- restart skips them all and leaves the shard as the checkpoint had it.
pub write-replay_after :
    (state : Bytes) (n : ℕ) (w : Wal) (s : Shard) (now : ℤ) (es : List WalEntry)
    → n < 2 ^ 64
    → length es ≤ n
    → NeverFails w
    → AllEncodable (number_all now es (restarted state n w s))
    → let w' = write_all now es (restarted state n w s) in
      recover (replay_after n) w'.log s
      ≡ (finished (last_seq 0 (number_all now es (restarted state n w s))), s)
write-replay_after state n w s now es small few disk held =
    ap (λ (bs : Bytes). recover (replay_after n) bs s)
      (log-write_all now es r takes
        ∙ ap (λ (v : Wal). v.log ++ frames (number_all now es r)) (restarted_lem state n w s)
        ∙ ap (λ (bs : Bytes). bs ++ frames (number_all now es r)) (log-checkpoint_to state n w))
    ∙ recover-frames (replay_after n) (number_all now es r) s held
    ∙ replay-UpTo n 0 (number_all now es r) s
        (number_all-UpTo now es r n small (omega (arith, start)))
  where
    r : Wal
    r = restarted state n w s

    start : r.seq ≡ 0
    start = ap (λ (v : Wal). v.seq) (restarted_lem state n w s)

    takes : NeverFails r
    takes i =
        ap (λ (v : Wal). v.disk i) (restarted_lem state n w s)
        ∙ disk-checkpoint_to state n w i
        ∙ disk i

-- A shard that starts on a log: it has no users and no keys.
abbrev pub started_on : Option Wal → Shard → Shard
started_on w s = record s { users = []; applied_cmds = []; wal = w }

module _ (marshal : Users → Bytes) (unmarshal : Bytes → Users → Option Users) where
  -- A restart right after a checkpoint brings back the users that parsing the snapshot gives, has no
  -- idempotency key, and sets the log's number to 0.
  pub recover_from_checkpoint-create_checkpoint :
      (s : Shard) (w : Wal) (users : Users)
      → unmarshal (marshal s.users) [] ≡ some users
      → let saved = create_checkpoint marshal unmarshal (record s { wal = some w }) in
        let (r, s') = recover_from_checkpoint marshal unmarshal (started_on saved.wal s) in
        (r ≡ replayed (finished 0))
        × (s'.users ≡ users)
        × (s'.applied_cmds ≡ [])
        × (s'.wal ≡ some (record (checkpoint_to (marshal s.users) w.seq w) { seq = 0 }))
  unfolding create_checkpoint recover_from_checkpoint load_users checkpoint_to load_snapshot
      after_recover
  recover_from_checkpoint-create_checkpoint s w users k = ground (
    arith,
    k,
    recover_nothing w.seq
        (record (started_on (some (checkpoint_to (marshal s.users) w.seq w)) s) { users = users }),
  )
