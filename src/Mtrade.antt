-- ===== src/Mtrade.antt =====
-- The matching engine (pkg/mtrade): orders, price levels, the order book and the matcher.
pub mod Order
pub mod Level
pub mod Matcher
pub mod Index
pub mod SkipList
pub mod Book
pub mod Process
pub mod Log
mod Tests
