-- ===== src/Asset/Engine/Routing.antt =====
-- A call of the engine reaches the shard of its user and no other.
use native.Mathlib.Nat.{mod-lt}
use little_cex.Prelude.{
  ℕ, ◌+◌, ◌<◌, ◌≡◌, ◌≢◌, refl, ap, ◌∙◌, sym, ℤ, pos_part, neg_part, some, List, length, get_at, set,
  get_at-set_self, get_at-set_ne,
}
use little_cex.Asset.Shard.State.{Shard, Command, Outcome, ok, err, panic}
use little_cex.Asset.Shard.Handler.{handle_command}
use little_cex.Asset.Engine.{shard_index, answered, submit}

shard_index-lt : (n : ℕ) (uid : ℤ) → 0 < n → shard_index n uid < n
unfolding shard_index
shard_index-lt n uid h = mod-lt (pos_part uid + neg_part uid) {m = n} h

shards-answered :
    (i : ℕ) (shards : List Shard) (r : Outcome (Unit {0}) × Shard)
    → (answered i shards r).1 ≡ set shards i r.1
shards-answered i shards (ok _, s) = refl
shards-answered i shards (err e, s) = refl
shards-answered i shards (panic, s) = refl

submit_found :
    (cmd : Command) (shards : List Shard) (s : Shard)
    → get_at shards (shard_index (length shards) cmd.user_id) ≡ some s
    → (submit cmd shards).1
      ≡ set shards (shard_index (length shards) cmd.user_id) (handle_command cmd s).1
unfolding submit
submit_found cmd shards s e =
    rw (e, submit)
      (shards-answered (shard_index (length shards) cmd.user_id) shards (handle_command cmd s))

-- Where there are shards, and the shard of the command's user is `s`, a submitted command leaves
-- there what the handler leaves of `s`, and every other shard as it was.
submit-routing :
    (cmd : Command) (shards : List Shard) (s : Shard)
    → 0 < length shards
    → get_at shards (shard_index (length shards) cmd.user_id) ≡ some s
    → (get_at (submit cmd shards).1 (shard_index (length shards) cmd.user_id)
        ≡ some (handle_command cmd s).1)
      × ((j : ℕ)
          → j ≢ shard_index (length shards) cmd.user_id
          → get_at (submit cmd shards).1 j ≡ get_at shards j)
submit-routing cmd shards s h e = (
  ap (λ (ss : List Shard). get_at ss i) (submit_found cmd shards s e)
      ∙ get_at-set_self shards i (handle_command cmd s).1
          (shard_index-lt (length shards) cmd.user_id h),
  λ j ne.
      ap (λ (ss : List Shard). get_at ss j) (submit_found cmd shards s e)
      ∙ get_at-set_ne shards i j (handle_command cmd s).1 (λ same. ne (sym same)),
)
  where
    i : ℕ
    i = shard_index (length shards) cmd.user_id
