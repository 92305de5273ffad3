-- ===== src/Futures/Tests.antt =====
-- Concrete runs of the futures.
mod Data
mod Contracts
mod Orders
mod Settlements
mod Funds
mod Liquidations
