-- ===== src/Mtrade/Log/Layout.antt =====
-- The layout of an order in the log and in a checkpoint (WriteOrder and decodeOrder of
-- pkg/mtrade/wal.go).
use little_cex.Prelude.{ℕ, ℤ, [], ◌∷◌, Bytes, bits64, int_eq, nat_eq, bytes_eq, pair_eq}
use little_cex.Asset.Wal.{
  ◌>>=◌, pure, le, put_text, join, Read, Reader, ok, too_short, panic, get_le, get_i64, get_text,
  pure,
}
use little_cex.Mtrade.Order.{
  Order, Side, buy, sell, OrderType, limit, market, ioc, fok, post_only, gtc, OrderStatus, new,
  partially_filled, filled, canceled, rejected,
}

abbrev pub side_code : Side → ℕ
side_code buy = 1
side_code sell = 255

abbrev pub type_code : OrderType → ℕ
type_code limit = 0
type_code market = 1
type_code ioc = 2
type_code fok = 3
type_code post_only = 4
type_code gtc = 5

abbrev pub order_status_code : OrderStatus → ℕ
order_status_code new = 0
order_status_code partially_filled = 1
order_status_code filled = 2
order_status_code canceled = 3
order_status_code rejected = 4

-- An order as it is read back: any byte is a side, a type or a status.
pub record Image : Type 0 where
  pub id : ℤ
  pub user_id : ℤ
  pub price : ℤ
  pub qty : ℤ
  pub filled_qty : ℤ
  pub created_at : ℤ
  pub side : ℕ
  pub type_ : ℕ
  pub status : ℕ
  pub symbol : Bytes

abbrev pub image_of : Order → Image
image_of o = record {
  id = o.id;
  user_id = o.user_id;
  price = o.price;
  qty = o.qty;
  filled_qty = o.filled_qty;
  created_at = o.created_at;
  side = side_code o.side;
  type_ = type_code o.type_;
  status = order_status_code o.status;
  symbol = o.symbol;
}

unfoldable pub encode_image : Image → Bytes
encode_image o = join (
    le 8 (bits64 o.id)
    ∷ le 8 (bits64 o.user_id)
    ∷ le 8 (bits64 o.price)
    ∷ le 8 (bits64 o.qty)
    ∷ le 8 (bits64 o.filled_qty)
    ∷ le 8 (bits64 o.created_at)
    ∷ (o.side ∷ [])
    ∷ (o.type_ ∷ [])
    ∷ (o.status ∷ [])
    ∷ put_text o.symbol
    ∷ [])

unfoldable pub encode_order : Order → Bytes
encode_order o = encode_image (image_of o)

unfoldable pub order_fields : Reader Image
order_fields = do
  id ← get_i64
  user_id ← get_i64
  price ← get_i64
  qty ← get_i64
  filled_qty ← get_i64
  created_at ← get_i64
  side ← get_le 1
  type_ ← get_le 1
  status ← get_le 1
  symbol ← get_text
  pure (record {
    id = id;
    user_id = user_id;
    price = price;
    qty = qty;
    filled_qty = filled_qty;
    created_at = created_at;
    side = side;
    type_ = type_;
    status = status;
    symbol = symbol;
  })

-- Bytes behind the last field are ignored; too few panic.
unfoldable pub decode_order : Bytes → Read Image
decode_order bs = elim (order_fields bs) [
  | ok (o, _) ↦ ok o
  | too_short ↦ too_short
  | panic ↦ panic
]
