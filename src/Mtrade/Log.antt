-- ===== src/Mtrade/Log.antt =====
-- The log of the trading engine (pkg/mtrade/wal.go): the layout of an order, the entries and their
-- checksums, reading the log back, and checkpoints. The bytes of an order are a slice of the buffer
-- that the checksum uses, so the data of an entry is a reference.
mod Layout
mod Entries
mod Reading
pub mod Frames
pub mod Garbled
pub mod Ends
mod Tests
unfoldable pub use Layout.*
unfoldable pub use Entries.*
unfoldable pub use Reading.*
