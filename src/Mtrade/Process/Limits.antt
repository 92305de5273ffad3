-- ===== src/Mtrade/Process/Limits.antt =====
-- The two tests of prices, of the matcher and of an order.
use little_cex.Prelude.{◌≡◌, ◌≢◌, refl, sym, ◌∙◌, ℤ, if◌then◌else◌, leb_ℤ, arith}
use little_cex.Mtrade.Order.{Side, buy, sell, side_beq, opposite, OrderType, Order, can_match_order}
use little_cex.Mtrade.Process.{can_match}

can_match-limit :
    (t : OrderType) (taker : Order) (price : ℤ)
    → taker.type_ ≡ t
    → t ≢ OrderType.market
    → can_match taker price
      ≡ (if side_beq taker.side buy then leb_ℤ price taker.price else leb_ℤ taker.price price)
unfolding can_match
can_match-limit OrderType.market taker price e h = absurd (h refl)
can_match-limit OrderType.limit taker price e h = rw e refl
can_match-limit OrderType.ioc taker price e h = rw e refl
can_match-limit OrderType.fok taker price e h = rw e refl
can_match-limit OrderType.post_only taker price e h = rw e refl
can_match-limit OrderType.gtc taker price e h = rw e refl

can_match_order-opposite :
    (s t : Side) (taker maker : Order)
    → taker.side ≡ s
    → maker.side ≡ t
    → t ≡ opposite s
    → can_match_order taker maker ≡ (
        if side_beq taker.side buy
        then leb_ℤ maker.price taker.price
        else leb_ℤ taker.price maker.price)
unfolding can_match_order opposite
can_match_order-opposite buy sell taker maker e f g = ground arith
can_match_order-opposite sell buy taker maker e f g = ground arith
can_match_order-opposite buy buy taker maker e f g = absurd (ground arith)
can_match_order-opposite sell sell taker maker e f g = absurd (ground arith)

-- For a taker that is not a market order and a maker on the opposite side, the matcher's test of
-- the maker's price agrees with the order's own test of the maker.
can_match-eq-can_match_order :
    (taker maker : Order)
    → maker.side ≡ opposite taker.side
    → taker.type_ ≢ OrderType.market
    → can_match taker maker.price ≡ can_match_order taker maker
can_match-eq-can_match_order taker maker facing h =
    can_match-limit taker.type_ taker maker.price refl h
    ∙ sym (can_match_order-opposite taker.side maker.side taker maker refl refl facing)
