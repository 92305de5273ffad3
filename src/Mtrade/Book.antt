-- ===== src/Mtrade/Book.antt =====
-- The order book (pkg/mtrade/orderbook.go) over any price index. The snapshot for readers is not
-- modelled: these operations do not touch it.
pub mod Queues
pub mod Add
pub mod Cancel
use little_cex.Prelude.{
  ℕ, ℤ, Bool, true, false, Option, none, some, if◌then◌else◌, Bytes, Map, int_eq, lookup, insert,
  erase,
}
use little_cex.Mtrade.Order.{Side, buy, sell, new, canceled, Order, Heap, update}
use little_cex.Mtrade.Level
use little_cex.Mtrade.Level.{RingPriceLevel, pop_front, remove_order, is_empty}
use little_cex.Mtrade.Matcher.{set_status}
use little_cex.Mtrade.Index.{PriceIndex, or_new_level}

-- `OrderBook`, with the heap that its pointers lead into.
pub record Book (P : PriceIndex) : Type 0 where
  pub symbol : Bytes
  pub bids : P.Index
  pub asks : P.Index
  pub order_index : Map ℤ ℕ
  pub heap : Heap

-- The level goes back to its node, or the node goes if the level is empty.
unfoldable pub keep_level : (P : PriceIndex) → ℤ → RingPriceLevel → P.Index → P.Index
keep_level P price level i =
    let i' : P.Index = P.put price level i in if is_empty level then P.delete price i' else i'

module _ {P : PriceIndex} where
  -- `getSideIndex`
  abbrev pub side_index : Side → Book P → P.Index
  side_index buy b = b.bids
  side_index sell b = b.asks

  abbrev pub set_side_index : Side → P.Index → Book P → Book P
  set_side_index buy i b = record b { bids = i }
  set_side_index sell i b = record b { asks = i }

  -- `AddOrder` past the test for a duplicate.
  unfoldable pub enter_order : ℕ → Book P → Book P
  enter_order p b =
      let o : Order = b.heap p in
      let i : P.Index = P.insert o.price (side_index o.side b) in
      let level : RingPriceLevel = or_new_level o.price (P.find o.price i) in
      let i' : P.Index = P.put o.price (Level.add_order b.heap p level) i in
      record (set_side_index o.side i' b) {
        order_index = insert o.id p b.order_index;
        heap = update p (set_status new) b.heap;
      }

  unfoldable pub add_order : ℕ → Book P → Bool × Book P
  add_order p b = elim (lookup (b.heap p).id b.order_index) [
    | some _ ↦ (false, b)
    | none ↦ (true, enter_order p b)
  ]

  -- `CancelOrder` once the order and its level are found.
  unfoldable pub withdraw_order : ℤ → ℕ → RingPriceLevel → Book P → Book P
  withdraw_order id p level b =
      let o : Order = b.heap p in
      let i : P.Index =
        keep_level P o.price (remove_order b.heap id level).1 (side_index o.side b) in
      record (set_side_index o.side i b) {
        order_index = erase id b.order_index;
        heap = update p (set_status canceled) b.heap;
      }

  unfoldable pub cancel_order : ℤ → Book P → Option ℕ × Book P
  cancel_order id b = elim (lookup id b.order_index) [
    | none ↦ (none, b)
    | some p ↦ elim (P.find (b.heap p).price (side_index (b.heap p).side b)) [
      | none ↦ (none, b)
      | some level ↦ (some p, withdraw_order id p level b)
    ]
  ]

  -- `GetOrder`
  unfoldable pub get_order : ℤ → Book P → Option ℕ
  get_order id b = lookup id b.order_index

  -- `RemoveFromLevel`
  unfoldable pub remove_from_level : ℕ → Book P → Book P
  remove_from_level p b =
      let o : Order = b.heap p in
      let b' : Book P = elim (P.find o.price (side_index o.side b)) [
        | none ↦ b
        | some level ↦
            set_side_index o.side
              (keep_level P o.price (pop_front b.heap level).1 (side_index o.side b)) b
      ] in
      record b' { order_index = erase o.id b.order_index }
