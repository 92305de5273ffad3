-- ===== src/Asset/Tests/Data.antt =====
-- A shard with one funded user, and commands about that user.
use little_cex.Prelude.{
  inl, ◌<◌, ◌^◌, ℕ, refl, pos, false, none, some, [], ◌∷◌, Bytes, ascii, int_eq, bytes_eq, arith,
}
use little_cex.Asset.Model.{UserState}
use little_cex.Asset.Wal.{numbered, Wal, WalEntry}
use little_cex.Asset.Wal.RoundTrip.{IsType, IsEncodable}
use little_cex.Asset.Shard.State.{Shard, Command, CmdType, unset, no_stats}
use little_cex.Asset.Shard.Handler.{entry_type, cmd_to_wal_entry}

abbrev pub usdt : Bytes
usdt = ascii "USDT"

abbrev pub alice : UserState
alice = record {
  user_id = pos 1;
  assets = (usdt, record { available = pos 100; locked = pos 20 }) ∷ [];
  positions = [];
  options = [];
  last_seq = 0;
  last_active_at = pos 7;
  open_order_count = pos 1;
  pinned = false;
}

abbrev pub empty_wal : Wal
empty_wal = record { seq = 0; log = []; snapshot_file = none; meta_file = none; disk = λ _. none }

abbrev pub shard : Shard
shard = record {
  users = (pos 1, alice) ∷ [];
  applied_cmds = [];
  snapshot_store = some [];
  stats = no_stats;
  wal = some empty_wal;
  clock = λ n. pos n;
  sent = [];
}

-- A command about the first user, who also receives what it pays.
abbrev pub command : CmdType → ℕ → Command
command t amount = record {
  type_ = t;
  cmd_id = ascii "c1";
  user_id = pos 1;
  symbol = usdt;
  amount = pos amount;
  to_user_id = pos 2;
  to_symbol = usdt;
  to_amount = pos 5;
  fee = pos 1;
  fee_asset = usdt;
  result = some 3;
}

-- A command as the log holds it, at time 5.
abbrev pub logged : CmdType → ℕ → Wal → WalEntry
logged t amount w = numbered (pos 5) (cmd_to_wal_entry (command t amount)) w

pub logged-IsEncodable :
    (t : CmdType) (amount : ℕ) (w : Wal) → amount < 2 ^ 63 → IsEncodable (logged t amount w)
unfolding cmd_to_wal_entry numbered
logged-IsEncodable t amount w h = record {
  seq_fits = omega arith;
  type_fits = elim t as (λ (k : CmdType). IsType (entry_type k)) [
    | unset ↦ (inl refl, omega arith)
    | _ ↦ tt
  ];
  timestamp_fits = ground arith;
  cmd_id_fits = omega arith;
  user_id_fits = ground arith;
  symbol_fits = omega arith;
  amount_fits = ground arith;
  to_user_id_fits = ground arith;
  to_symbol_fits = omega arith;
  to_amount_fits = ground arith;
  fee_fits = ground arith;
  fee_asset_fits = omega arith;
}
