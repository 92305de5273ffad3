-- ===== src/Futures.antt =====
-- Futures (pkg/futures): contracts, positions, settlement, funding, the insurance fund, and orders.
pub mod Spec
pub mod Contracts
pub mod Position
pub mod Positions
pub mod Settlement
pub mod Processor
pub mod Insurance
pub mod MarkPrice
pub mod Funding
pub mod Liquidator
mod Tests
