-- ===== src/Mtrade/Tests.antt =====
-- Concrete runs of the matching engine: a ring that wraps around.
use little_cex.Prelude.{
  ℤ, none, int_eq, lookup, eqb_ℤ, Bool-cases, inl, inr, ℕ, ◌≡◌, refl, pos, some, List, [], ◌∷◌,
  ◌++◌, arith, map, if◌then◌else◌, nat_beq, false, subst, true, ◌%◌, sym, ◌∙◌,
}
use little_cex.Mtrade.Order.{Order, opposite, buy, sell, limit, new, Heap}
use little_cex.Mtrade.SkipList.Indexed.{skip_list_index}
use little_cex.Mtrade.Index.{PriceIndex, or_new_level}
use little_cex.Mtrade.Book
use little_cex.Mtrade.Book.{Book, side_index, cancel_order}
use little_cex.Mtrade.Book.Queues.{IsRingIn, IsBook}
use little_cex.Mtrade.Book.Add.{IsEntered, add_order-IsEntered}
use little_cex.Mtrade.Book.Cancel.{IsWithdrawn, cancel_order-IsWithdrawn}
use little_cex.Mtrade.Matcher.{Matching, match_at_level, match_round}
use little_cex.Mtrade.Matcher.Depth.{match_round-total_qty}
use little_cex.Mtrade.Matcher.Fill.{IsFillable}
use little_cex.Mtrade.Matcher.Queue.{Distinct}
use little_cex.Mtrade.Matcher.Loop.{EndsServed, match_at_level-EndsServed}
use little_cex.Mtrade.Level.{
  front, for_each, RingPriceLevel, add_order, pop_front, remove_at, remove_order, has_id,
}
use little_cex.Mtrade.Level.Search.{first_of, drop_first, remove_order-contents}
use little_cex.Mtrade.Level.Table.{erase_at}
use little_cex.Mtrade.Level.Ring.{IsRing, contents, slots, add_order-contents}
use little_cex.Mtrade.Level.Remove.{pop_front-contents}
use little_cex.Mtrade.Level.Middle.{remove_at-contents}

abbrev heap : Heap
heap p = record {
  id = pos p;
  user_id = pos 1;
  price = pos 100;
  qty = if nat_beq p 9 then pos 25 else pos 10;
  filled_qty = pos 0;
  created_at = pos 0;
  side = buy;
  type_ = limit;
  status = new;
  symbol = [];
}

-- Full, with its head in the middle.
abbrev ring : RingPriceLevel
ring = record {
  price = pos 100;
  total_qty = pos 40;
  orders = some 8 ∷ some 5 ∷ some 6 ∷ some 7 ∷ [];
  head = 1;
  tail = 1;
  count = 4;
  mask = 3;
}

ring-IsRing : IsRing ring
ring-IsRing = record {
  exponent = 2;
  capacity = refl;
  mask_of = refl;
  head_in = omega arith;
  count_in = omega arith;
  tail_at = refl;
}

-- The ring grows.
add_order-contents_example :
    IsRing (add_order heap 9 ring)
    × (contents (add_order heap 9 ring) ≡ contents ring ++ (some 9 ∷ []))
add_order-contents_example = add_order-contents heap 9 ring ring-IsRing

pop_front-contents_example :
    let (first, ring') = pop_front heap ring in
    IsRing ring' × (contents ring ≡ first ∷ contents ring')
pop_front-contents_example = pop_front-contents heap ring ring-IsRing (omega arith)

remove_at-contents_example :
    let (removed, ring') = remove_at heap 2 ring in
    (removed ≡ slots ring 2) × IsRing ring' × (contents ring' ≡ erase_at 2 (contents ring))
remove_at-contents_example = remove_at-contents heap 2 ring ring-IsRing (omega arith)

abbrev matching : Matching
matching = record { heap = heap; order_index = []; trade_seq = 0; clock = λ n. n; trades = [] }

abbrev queue : List ℕ
queue = 5 ∷ 6 ∷ 7 ∷ 8 ∷ []

contents-ring : contents ring ≡ map some queue
unfolding for_each
contents-ring = refl

heap-IsFillable : (r : ℕ) → IsFillable (heap r)
heap-IsFillable r = record {
  filled_nonneg = omega arith;
  filled_le = ground arith;
  qty_fits = ground arith;
}

queue-Distinct : Distinct (9 ∷ queue)
queue-Distinct = ground arith

-- The taker wants 25: two orders and a half.
match_at_level-EndsServed_example : EndsServed 9 queue matching (match_at_level 5 9 ring matching)
match_at_level-EndsServed_example =
    match_at_level-EndsServed queue 5 9 ring matching ring-IsRing contents-ring (omega arith)
      queue-Distinct heap-IsFillable

remove_order-contents_example :
    let (removed, ring') = remove_order heap (pos 6) ring in
    (removed ≡ first_of (has_id heap (pos 6)) (contents ring))
    × IsRing ring'
    × (contents ring' ≡ drop_first (has_id heap (pos 6)) (contents ring))
remove_order-contents_example = remove_order-contents heap (pos 6) ring ring-IsRing

-- The skip lists of a book, where every third draw makes a node grow.
abbrev Prices : PriceIndex
Prices = skip_list_index (λ n. nat_beq (n % 3) 0)

-- Buyers wait in the ring, at a price that was inserted.
abbrev buyers : Prices.Index
buyers = Prices.put (pos 100) ring (Prices.insert (pos 100) (Prices.empty false))

buyers-find :
    (price : ℤ) → Prices.find price buyers ≡ (if eqb_ℤ price (pos 100) then some ring else none)
buyers-find price =
    let start = Prices.empty false in
    let there : Prices.find (pos 100) (Prices.insert (pos 100) start)
        ≡ some (or_new_level (pos 100) (Prices.find (pos 100) start)) =
      Prices.find-insert (pos 100) (pos 100) start in
    Prices.find-put price (pos 100) (or_new_level (pos 100) (Prices.find (pos 100) start)) ring
      (Prices.insert (pos 100) start) there
    ∙ (elim (Bool-cases (eqb_ℤ price (pos 100))) [
      | inl here ↦ rw here refl
      | inr other ↦
          rw other
            (Prices.find-insert price (pos 100) start ∙ rw other (Prices.find-empty false price))
    ])

-- A book whose buyers wait in the ring.
abbrev book : Book Prices
book = record {
  symbol = [];
  bids = buyers;
  asks = Prices.empty true;
  order_index = (pos 6, 6) ∷ [];
  heap = heap;
}

ring_at : (price : ℤ) → IsRingIn (Prices.find price buyers)
ring_at price =
    subst IsRingIn (sym (buyers-find price)) (elim (Bool-cases (eqb_ℤ price (pos 100))) [
      | inl here ↦ rw here ring-IsRing
      | inr other ↦ rw other tt
    ])

book-IsBook : IsBook {P = Prices} book
book-IsBook = record {
  rings = λ s price.
      elim s as (λ t. IsRingIn (Prices.find price (side_index {P = Prices} t book))) [
        | buy ↦ ring_at price
        | sell ↦ subst IsRingIn (sym (Prices.find-empty true price)) tt
      ];
}

new_to_book : lookup (heap 9).id book.order_index ≡ none
unfolding lookup
new_to_book = refl

add_order-IsEntered_example : IsEntered {P = Prices} 9 book (Book.add_order 9 book)
add_order-IsEntered_example = add_order-IsEntered {P = Prices} 9 book book-IsBook new_to_book

known_to_book : lookup (pos 6) book.order_index ≡ some 6
unfolding lookup
known_to_book = refl

level_there : Prices.find (pos 100) book.bids ≡ some ring
level_there = buyers-find (pos 100)

cancel_order-IsWithdrawn_example :
    let (canceled, book') = cancel_order {P = Prices} (pos 6) book in
    (canceled ≡ some 6) × IsWithdrawn {P = Prices} (pos 6) 6 book book'
cancel_order-IsWithdrawn_example =
    cancel_order-IsWithdrawn {P = Prices} (pos 6) 6 book ring book-IsBook known_to_book level_there

front_maker : front ring ≡ some 5
unfolding front
front_maker = refl

match_round-total_qty_example : (match_round 9 5 ring matching).0.total_qty ≡ ring.total_qty
match_round-total_qty_example =
    match_round-total_qty 9 5 ring matching heap-IsFillable (λ e. absurd (omega arith)) front_maker
      (ground arith)

sells : sell ≡ opposite buy
unfolding opposite
sells = refl

-- A seller at 99 for the buyer at 100.
abbrev seller : Order
seller = record (heap 5) { side = sell; price = pos 99 }
