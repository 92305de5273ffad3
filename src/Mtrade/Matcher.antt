-- ===== src/Mtrade/Matcher.antt =====
-- Matching a taker against one price level (`matchAtLevel` of pkg/mtrade/matcher.go).
pub mod Fill
pub mod Queue
pub mod Round
pub mod Deal
pub mod Serve
pub mod Loop
pub mod Depth
use Prim.Native.Nat.{bit_and, bit_or}
use little_cex.Prelude.{
  ℕ, zero, suc, ◌+◌, ◌*◌, ◌/◌, ◌%◌, ◌^◌, ℤ, pos, ◌&&◌, not, none, some, List, [], ◌∷◌, ◌++◌,
  if◌then◌else◌, ltb_ℤ, add64, of_bits64, Bytes, Map, int_eq, erase,
}
use little_cex.Mtrade.Order.{
  Side, OrderStatus, filled, partially_filled, Order, remaining_qty, is_filled, Heap, update,
}
use little_cex.Mtrade.Level.{RingPriceLevel, front, is_empty, pop_front}

pub record Trade : Type 0 where
  pub id : ℤ
  pub symbol : Bytes
  pub price : ℤ
  pub qty : ℤ
  pub taker_id : ℤ
  pub maker_id : ℤ
  pub taker_side : Side
  pub timestamp : ℤ

-- What a match reads and writes beside the level: the orders, the book's index of them, the
-- matcher's counter, the readings of the clock still to come, in nanoseconds, and the trades so
-- far. The counter is an `int64`, which no run fills.
pub record Matching : Type 0 where
  pub heap : Heap
  pub order_index : Map ℤ ℕ
  pub trade_seq : ℕ
  pub clock : ℕ → ℕ
  pub trades : List Trade

-- `min`
unfoldable pub min64 : ℤ → ℤ → ℤ
min64 a b = if ltb_ℤ a b then a else b

-- `time.Now().UnixNano()/1000000<<20 | (m.tradeSeq & 0xFFFFF)`
unfoldable pub trade_id : ℕ → ℕ → ℤ
trade_id time seq = of_bits64 (bit_or (time / 1000000 * 2 ^ 20 % 2 ^ 64) (bit_and seq 0xfffff))

-- `o.FilledQty += q`
unfoldable pub fill : ℤ → Order → Order
fill q o = record o { filled_qty = add64 o.filled_qty q }

abbrev pub set_status : OrderStatus → Order → Order
set_status t o = record o { status = t }

-- The trade of a round, and the clock read twice for it: for its identifier and its time.
unfoldable pub add_trade : ℕ → ℕ → ℤ → Matching → Matching
add_trade taker maker q st = record st {
  trade_seq = st.trade_seq + 1;
  clock = λ n. st.clock (suc (suc n));
  trades =
      st.trades
      ++ (record {
        id = trade_id (st.clock 0) (st.trade_seq + 1);
        symbol = (st.heap taker).symbol;
        price = (st.heap maker).price;
        qty = q;
        taker_id = (st.heap taker).id;
        maker_id = (st.heap maker).id;
        taker_side = (st.heap taker).side;
        timestamp = pos (st.clock 1);
      }
          ∷ []);
}

-- A filled maker leaves the level and the index.
unfoldable pub retire_maker : ℕ → RingPriceLevel → Matching → RingPriceLevel × Matching
retire_maker maker level st =
    let h = update maker (set_status filled) st.heap in
    ((pop_front h level).1, record st { heap = h; order_index = erase (h maker).id st.order_index })

unfoldable pub close_maker : ℕ → RingPriceLevel → Matching → RingPriceLevel × Matching
close_maker maker level st =
    if is_filled (st.heap maker)
    then retire_maker maker level st
    else (level, record st { heap = update maker (set_status partially_filled) st.heap })

-- One round of the loop.
unfoldable pub match_round : ℕ → ℕ → RingPriceLevel → Matching → RingPriceLevel × Matching
match_round taker maker level st =
    let q = min64 (remaining_qty (st.heap taker)) (remaining_qty (st.heap maker)) in
    close_maker maker level (
      add_trade taker maker q
        (record st { heap = update maker (fill q) (update taker (fill q) st.heap) }))

-- How a loop of the matcher ends: a nil order in the queue panics.
pub data Matched (A : Type 0) : Type 0 where
  matched : A → Matched A
  panicked : Matched A
  out_of_fuel : Matched A

-- `matchAtLevel`. Each round that is not the last takes an order off the level, so one more round
-- than it holds orders is enough.
unfoldable pub match_at_level :
    ℕ → ℕ → RingPriceLevel → Matching → Matched (RingPriceLevel × Matching)
match_at_level zero taker level st = out_of_fuel
match_at_level (suc fuel) taker level st =
    if ltb_ℤ (pos 0) (remaining_qty (st.heap taker)) && not (is_empty level)
    then elim (front level) [
      | none ↦ panicked
      | some maker ↦
          let (level', st') = match_round taker maker level st in
          match_at_level fuel taker level' st'
    ]
    else matched (level, st)
