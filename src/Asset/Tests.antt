-- ===== src/Asset/Tests.antt =====
-- Concrete runs of the account engine.
mod Data
mod Accounts
mod Restarts
