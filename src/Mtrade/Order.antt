-- ===== src/Mtrade/Order.antt =====
-- Orders (pkg/mtrade/order.go). Prices and quantities are `int64`; identifiers are keys.
use little_cex.Prelude.{ℕ, ℤ, Bool, true, false, if◌then◌else◌, leb_ℤ, sub64, Bytes, nat_beq}

pub data Side : Type 0 where
  buy sell : Side

abbrev pub side_beq : Side → Side → Bool
side_beq buy buy = true
side_beq buy sell = false
side_beq sell buy = false
side_beq sell sell = true

unfoldable pub opposite : Side → Side
opposite buy = sell
opposite sell = buy

-- `GTC` is declared in matcher.go.
pub data OrderType : Type 0 where
  limit market ioc fok post_only gtc : OrderType

pub data OrderStatus : Type 0 where
  new partially_filled filled canceled rejected : OrderStatus

pub record Order : Type 0 where
  pub id : ℤ
  pub user_id : ℤ
  pub price : ℤ
  pub qty : ℤ
  pub filled_qty : ℤ
  pub created_at : ℤ
  pub side : Side
  pub type_ : OrderType
  pub status : OrderStatus
  pub symbol : Bytes

-- `RemainingQty`
abbrev pub remaining_qty : Order → ℤ
remaining_qty o = sub64 o.qty o.filled_qty

abbrev pub is_filled : Order → Bool
is_filled o = leb_ℤ o.qty o.filled_qty

-- `CanMatch`
unfoldable pub can_match_order : Order → Order → Bool
can_match_order o other =
    if side_beq o.side other.side
    then false
    else if side_beq o.side buy
    then leb_ℤ other.price o.price
    else leb_ℤ o.price other.price

-- Where orders live: `*Order` is a number, and reading it gives the order.
abbrev pub Heap : Type 0
Heap = ℕ → Order

-- A write through the pointer `p`.
unfoldable pub update : ℕ → (Order → Order) → Heap → Heap
update p f h q = if nat_beq q p then f (h q) else h q
