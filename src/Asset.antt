-- ===== src/Asset.antt =====
-- The hot-wallet account engine (pkg/asset): its data, the write-ahead log and the shards.
pub mod Model
pub mod Wal
pub mod Shard
pub mod Engine
mod Tests
