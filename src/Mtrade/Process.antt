-- ===== src/Mtrade/Process.antt =====
-- Matching a taker over the levels of the opposite side, and what becomes of the rest of it
-- (`Match`, `ProcessOrder` of pkg/mtrade/matcher.go). The pool of results is an optimisation, and
-- each result is a value of its own here.
pub mod Limits
use little_cex.Prelude.{
  ℕ, zero, suc, ℤ, pos, Bool, true, false, none, some, List, [], ◌∷◌, if◌then◌else◌, ltb_ℤ, leb_ℤ,
}
use little_cex.Mtrade.Order
use little_cex.Mtrade.Order.{
  buy, side_beq, opposite, OrderType, OrderStatus, Order, remaining_qty, is_filled, update,
}
use little_cex.Mtrade.Matcher.{
  Trade, Matching, Matched, matched, panicked, out_of_fuel, match_at_level, set_status,
}
use little_cex.Mtrade.Index.{PriceIndex}
use little_cex.Mtrade.Book
use little_cex.Mtrade.Book.{Book, side_index, set_side_index, keep_level}

-- `canMatch`
unfoldable pub can_match : Order → ℤ → Bool
can_match taker maker_price = elim taker.type_ [
  | OrderType.market ↦ true
  | _ ↦
      if side_beq taker.side buy
      then leb_ℤ maker_price taker.price
      else leb_ℤ taker.price maker_price
]

-- The matcher: its book, its counter and the readings of the clock still to come.
pub record Matcher (P : PriceIndex) : Type 0 where
  pub book : Book P
  pub trade_seq : ℕ
  pub clock : ℕ → ℕ

pub record MatchResult : Type 0 where
  pub trades : List Trade
  pub taker_order : ℕ
  pub filled_qty : ℤ
  pub remaining : ℤ
  pub fully_filled : Bool

-- The loop of `Match`, over the index of the opposite side.
unfoldable pub match_loop :
    (P : PriceIndex) → ℕ → ℕ → P.Index → Matching → Matched (P.Index × Matching)
match_loop P zero taker i st = out_of_fuel
match_loop P (suc fuel) taker i st = elim (ltb_ℤ (pos 0) (remaining_qty (st.heap taker))) [
  | false ↦ matched (i, st)
  | true ↦ elim (P.first i) [
    | none ↦ matched (i, st)
    | some price ↦ elim (can_match (st.heap taker) price) [
      | false ↦ matched (i, st)
      | true ↦ elim (P.find price i) [
        | none ↦ panicked
        | some level ↦ elim (match_at_level (suc level.count) taker level st) [
          | matched (level', st') ↦ match_loop P fuel taker (keep_level P price level' i) st'
          | panicked ↦ panicked
          | out_of_fuel ↦ out_of_fuel
        ]
      ]
    ]
  ]
]

-- The taker's status after its match.
unfoldable pub settle_status : Order → Order
settle_status o =
    if is_filled o
    then set_status Order.filled o
    else if ltb_ℤ (pos 0) o.filled_qty
    then set_status Order.partially_filled o
    else o

abbrev has_trades : List Trade → Bool
has_trades [] = false
has_trades (_ ∷ _) = true

module _ {P : PriceIndex} where
  abbrev begin : Matcher P → Matching
  begin m = record {
    heap = m.book.heap;
    order_index = m.book.order_index;
    trade_seq = m.trade_seq;
    clock = m.clock;
    trades = [];
  }

  -- The end of `Match`.
  unfoldable pub finish :
      ℕ → Matcher P → Matched (P.Index × Matching) → Matched (MatchResult × Matcher P)
  finish taker m panicked = panicked
  finish taker m out_of_fuel = out_of_fuel
  finish taker m (matched (i, st)) =
      let o : Order = st.heap taker in
      matched (
        record {
          trades = st.trades;
          taker_order = taker;
          filled_qty = o.filled_qty;
          remaining = remaining_qty o;
          fully_filled = is_filled o;
        },
        record {
          book = record (set_side_index (opposite o.side) i m.book) {
            order_index = st.order_index;
            heap = update taker settle_status st.heap;
          };
          trade_seq = st.trade_seq;
          clock = st.clock;
        },
      )

  -- Every round of the loop that is not the last deletes a level.
  unfoldable pub match_order : ℕ → Matcher P → Matched (MatchResult × Matcher P)
  match_order taker m =
      let i : P.Index = side_index (opposite (m.book.heap taker).side) m.book in
      finish taker m (match_loop P (suc (P.len i)) taker i (begin m))

  abbrev with_book : Book P → Matcher P → Matcher P
  with_book b m = record m { book = b }

  abbrev mark : ℕ → OrderStatus → Matcher P → Matcher P
  mark p t m = with_book (record m.book { heap = update p (set_status t) m.book.heap }) m

  abbrev rest_in_book : ℕ → Matcher P → Matcher P
  rest_in_book p m = with_book (Book.add_order p m.book).1 m

  -- What the type of the order makes of the rest.
  unfoldable pub dispose : OrderType → ℕ → MatchResult → Matcher P → Matcher P
  dispose OrderType.limit p r m = if r.fully_filled then m else rest_in_book p m
  dispose OrderType.gtc p r m = if r.fully_filled then m else rest_in_book p m
  dispose OrderType.market p r m = if r.fully_filled then m else mark p Order.canceled m
  dispose OrderType.ioc p r m = if r.fully_filled then m else mark p Order.canceled m
  dispose OrderType.fok p r m = if r.fully_filled then m else mark p Order.canceled m
  dispose OrderType.post_only p r m =
      if has_trades r.trades then mark p Order.rejected m else rest_in_book p m

  unfoldable pub process_order : ℕ → Matcher P → Matched (MatchResult × Matcher P)
  process_order p m = elim (match_order p m) [
    | matched (r, m') ↦ matched (r, dispose (m.book.heap p).type_ p r m')
    | panicked ↦ panicked
    | out_of_fuel ↦ out_of_fuel
  ]
