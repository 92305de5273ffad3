-- ===== src/Futures/Position.antt =====
-- Positions (pkg/futures/position.go) and how a fill changes one (updatePosition of
-- pkg/futures/processor.go). The identifier of the row and its time stamps are left aside.
pub mod Average
use little_cex.Prelude.{
  ℤ, pos, Bool, ◌&&◌, ◌||◌, Option, none, some, Bytes, if◌then◌else◌, ltb_ℤ, eqb_ℤ, add64, mul64,
  sub64, neg64, quotient, div64,
}
use little_cex.Futures.Spec.{precision}

pub data Side : Type 0 where
  long short : Side

-- `Size` is above 0 in a long position, below 0 in a short one.
pub record Position : Type 0 where
  pub user_id : ℤ
  pub symbol : Bytes
  pub size : ℤ
  pub entry_price : ℤ
  pub margin : ℤ
  pub leverage : ℤ
  pub realized_pnl : ℤ

unfoldable pub side : Position → Side
side p = if ltb_ℤ (pos 0) p.size then long else short

unfoldable pub abs_size : Position → ℤ
abs_size p = if ltb_ℤ p.size (pos 0) then neg64 p.size else p.size

unfoldable pub is_empty : Position → Bool
is_empty p = eqb_ℤ p.size (pos 0)

unfoldable pub unrealized_pnl : Position → ℤ → ℤ
unrealized_pnl p mark_price = quotient (mul64 (sub64 mark_price p.entry_price) p.size) precision

unfoldable pub position_value : Position → ℤ → ℤ
position_value p mark_price = quotient (mul64 (abs_size p) mark_price) precision

pub data PositionChangeType : Type 0 where
  position_open position_add position_reduce position_close : PositionChangeType

pub record PositionChangedEvent : Type 0 where
  pub user_id : ℤ
  pub symbol : Bytes
  pub change_type : PositionChangeType
  pub size : ℤ
  pub entry_price : ℤ
  pub margin : ℤ
  pub leverage : ℤ

unfoldable pub new_position_changed_event : Position → PositionChangeType → PositionChangedEvent
new_position_changed_event p change = record {
  user_id = p.user_id;
  symbol = p.symbol;
  change_type = change;
  size = p.size;
  entry_price = p.entry_price;
  margin = p.margin;
  leverage = p.leverage;
}

abbrev pub same_direction : ℤ → ℤ → Bool
same_direction a b = ltb_ℤ (pos 0) a && ltb_ℤ (pos 0) b || ltb_ℤ a (pos 0) && ltb_ℤ b (pos 0)

-- The average of the entry prices, weighted by the sizes; `none` where the new size is 0.
unfoldable pub average_price : Position → ℤ → ℤ → Option ℤ
average_price p delta_size price =
    div64 (add64 (mul64 p.size p.entry_price) (mul64 delta_size price)) (add64 p.size delta_size)

-- `updatePosition`; `none` is the panic of the division.
unfoldable pub update_position :
    Position → ℤ → ℤ → ℤ → ℤ → Bool → Option (Position × PositionChangeType)
update_position p delta_size price margin leverage is_new =
    if is_new || eqb_ℤ p.size (pos 0)
    then some (
      record p { size = delta_size; entry_price = price; margin = margin; leverage = leverage },
      position_open,
    )
    else if same_direction p.size delta_size
    then elim (average_price p delta_size price) [
      | none ↦ none
      | some average ↦ some (
        record p {
          size = add64 p.size delta_size;
          entry_price = average;
          margin = add64 p.margin margin;
        },
        position_add,
      )
    ]
    else some (
      record p { size = add64 p.size delta_size },
      if eqb_ℤ (add64 p.size delta_size) (pos 0) then position_close else position_reduce,
    )
