-- ===== src/Asset/Shard.antt =====
-- One shard of the account engine (pkg/asset/shard.go): its state, its five operations and the
-- handler of a command.
pub mod State
pub mod Operations
pub mod Handler
pub mod Balances
pub mod Options
pub mod Ledger
pub mod Refine
pub mod Execute
pub mod Sound
pub mod Keep
pub mod Effects
pub mod Undo
pub mod Once
pub mod Remembered
pub mod Checkpoint
pub mod Restart
pub mod Rejected
