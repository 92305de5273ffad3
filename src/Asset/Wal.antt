-- ===== src/Asset/Wal.antt =====
-- The write-ahead log of a shard (pkg/asset/wal.go). The log is the sequence of bytes written so
-- far, the file followed by the writer's buffer.
mod Codec
mod Log
pub mod RoundTrip
pub mod Replay
pub mod Enough
unfoldable pub use Codec.*
unfoldable pub use Log.*
