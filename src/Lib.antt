-- ===== src/Lib.antt =====
-- Verification of the exchange core of little_cex.
--
-- The program keeps hot-wallet balances in shards, each run by one goroutine that takes commands
-- from a queue, writes them to a log, executes them and publishes snapshots; and it matches orders
-- in books whose price levels are ring buffers. Futures orders freeze a margin in the balances of the
-- database and go to the matching engine, whose trades change positions; an expired contract is settled,
-- funding is paid between the open positions, and a fund covers bankruptcies. Spot orders reserve
-- their principal and fee in the shards. Users are indexed by how close they are to liquidation.
--
-- Prelude (shared by all): Boolean tests, lists over the native numbers, integers, `int64`
--   arithmetic that wraps around, maps as association lists, and masks.
-- Asset.Model: pkg/asset/model.go: Asset, UserState, Snapshot and their methods.
-- Asset.Wal: pkg/asset/wal.go. Codec is encodeEntry and decodeEntry, Log is Write, Recover, Checkpoint
--   and LoadSnapshot; RoundTrip, Replay and Enough are proofs about them.
-- Asset.Shard: pkg/asset/shard.go. State has the state of a shard and the steps on it
--   (getOrCreateUser, updateSnapshot), Operations has doReserve, doRelease, doTransfer, doAddBalance
--   and doDeductBalance, Handler has handleCommand, the conversions between commands and log entries,
--   and RecoverFromWAL. Checkpoint has CreateCheckpoint and RecoverFromCheckpoint, with the JSON
--   library as a parameter. Ledger is the abstract specification: which users are known and what they
--   hold. Balances, Options, Refine, Execute, Sound, Keep, Effects, Undo, Once, Restart and Rejected
--   are proofs.
-- Asset.Engine: pkg/asset/engine.go, the calls that become commands of a user's shard (Reserve,
--   Release, ApplyFill, ApplyBalanceChange) and Submit of pkg/asset/shard.go; Routing is a proof.
-- Mtrade.Order: pkg/mtrade/order.go. Mtrade.Level: pkg/mtrade/pricelevel.go, with proofs in Slots,
--   Table, Ring, Remove, Middle, Front and Search.
-- Mtrade.Matcher: pkg/mtrade/matcher.go, the loop at one price level (matchAtLevel). Queue is the
--   abstract service of a queue; Fill, Round, Deal, Serve, Loop and Depth are proofs. Mtrade.Process:
--   Match and ProcessOrder of the same file; Limits is a proof.
-- Mtrade.Index: pkg/mtrade/price_index.go, the price index as operations and the laws
--   that the book relies on. Mtrade.SkipList: pkg/mtrade/skiplist.go, the nodes linked at each level as
--   a list of prices, and the random numbers as a stream; Levels, Chains, Edited, Search and Sound are
--   proofs, and Indexed gives it as a price index. Mtrade.Book:
--   pkg/mtrade/orderbook.go over any price index (AddOrder, CancelOrder, RemoveFromLevel); Queues, Add
--   and Cancel are proofs.
-- Store: what the code relies on of its database: a table with a unique key, as statements and their
--   promises; Memory keeps them.
-- Fund.Balances: pkg/fund/balance_repo.go, the balances in the database. Solvent and Undo are proofs.
-- Futures.Spec and Futures.Contracts: pkg/futures/spec.go, pkg/futures/validation.go,
--   pkg/futures/manager.go and pkg/futures/mysql_repo.go, contracts from their request to their end;
--   Lifecycle is a proof.
-- Futures.Position and Futures.Positions: pkg/futures/position.go, updatePosition of
--   pkg/futures/processor.go and pkg/futures/position_repo.go. Average and Open are proofs.
-- Futures.Settlement: pkg/futures/settlement.go, from one position over a batch and the pages to a
--   contract (Run). Lists, Removed, Skipped, Ends and Payout are proofs.
-- Futures.Processor: pkg/futures/processor.go, orders to open and close positions (Close); Fills has
--   what it does with the events of the matching engine. Open, Refused, Wrapped and Partial are proofs.
-- Futures.Insurance: pkg/futures/insurance_fund.go. Entries and Backed are proofs.
-- Futures.MarkPrice: pkg/futures/mark_price_service.go, the price of a contract and its expiry.
-- Futures.Funding: pkg/futures/funding.go, rates, payments and the settlement of funding. Pages and
--   Schedule are proofs.
-- Futures.Liquidator: pkg/futures/liquidation_executor.go, orders that liquidate a position and their
--   trades. Once is a proof.
-- Spot: pkg/spot/processor.go over Asset.Engine; Events has what it does with the events of the
--   matching engine. Unfilled is a proof.
-- Liquidation.Index: pkg/liquidation/index.go and pkg/liquidation/model.go. Placed is a proof.
-- Mtrade.Log: pkg/mtrade/wal.go. An entry's data is a reference, since WriteOrder's bytes lie in the
--   buffer that calculateChecksum writes. Layout, Entries and Reading are its
--   parts. Frames, Garbled and Ends are proofs.
-- The modules called Tests: runs on concrete states.
--
-- State is passed explicitly. A shard's action returns a value, an error or a panic, with the state
-- it leaves, so a rejected operation keeps what it had written. Pointers into maps are keys, and
-- `*Order` is a number that a heap resolves. The clock and the answers of the disk are streams in the
-- state. `int64` wraps around; map keys and counters that no run fills do not.
--
-- A division by 0 and a nil pointer are `none`. Statements of the database, the queue of the engine
-- and the store of orders may fail at any call: their answers come from parameters or streams.
--
-- The loop of Recover runs on fuel: one round more than the log has bytes, and each frame takes at
-- least eight. The loop of matchAtLevel runs on fuel: one round more than the level holds orders. The
-- loop of Match has one round more than the index has levels: a round that is not the last deletes
-- one. The loop over the pages of a settlement has one round more than the contract has open
-- positions. The pages of funding have one round more than the contract has positions. ReadAll of the
-- trading log has one round more than the log has bytes, and an entry takes more than one.
--
-- Not modelled: the trading engine (pkg/mtrade/engine.go) and the recovery of its log into the book,
-- the snapshots of the book, the engine around the index of users,
-- the order service, alerts; goroutines, channels and locks around the single-threaded cores, file
-- handling, databases and messaging, floating-point risk formulas.
pub mod Asset
pub mod Fund
pub mod Futures
pub mod Liquidation
pub mod Mtrade
pub mod Prelude
pub mod Spot
pub mod Store
