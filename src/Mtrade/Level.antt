-- ===== src/Mtrade/Level.antt =====
-- A price level: a ring of orders with power-of-two capacity (pkg/mtrade/pricelevel.go).
-- Indices are `int`, which no ring fills, and are never negative. A slot is a pointer or nil.
pub mod Slots
pub mod Table
pub mod Ring
pub mod Remove
pub mod Middle
pub mod Front
pub mod Search
use Prim.Native.Nat.{bit_and}
use little_cex.Prelude.{
  ℕ, zero, suc, ◌+◌, ◌-◌, ◌*◌, ◌/◌, ℤ, pos, Bool, false, Option, none, some, List, [], ◌∷◌,
  if◌then◌else◌, nat_beq, ltb, leb_ℤ, eqb_ℤ, add64, sub64, length, get_or, set, replicate,
}
use little_cex.Mtrade.Order.{Heap, remaining_qty}

pub record RingPriceLevel : Type 0 where
  pub price : ℤ
  pub total_qty : ℤ
  pub orders : List (Option ℕ)
  pub head : ℕ
  pub tail : ℕ
  pub count : ℕ
  pub mask : ℕ

abbrev pub default_ring_capacity : ℕ
default_ring_capacity = 64

unfoldable pub new_ring_price_level : ℤ → RingPriceLevel
new_ring_price_level price = record {
  price = price;
  total_qty = pos 0;
  orders = replicate default_ring_capacity none;
  head = 0;
  tail = 0;
  count = 0;
  mask = default_ring_capacity - 1;
}

-- `pl.orders[i]`
abbrev pub slot_at : List (Option ℕ) → ℕ → Option ℕ
slot_at orders i = get_or orders i none

-- `RemainingQty` through a pointer; the model counts nil as 0, where the code would panic.
abbrev pub remaining_at : Heap → Option ℕ → ℤ
remaining_at h none = pos 0
remaining_at h (some p) = remaining_qty (h p)

-- The loop of `grow`: `i` counts up, `n` rounds are left.
unfoldable pub copy_slots : ℕ → ℕ → List (Option ℕ) → ℕ → ℕ → List (Option ℕ) → List (Option ℕ)
copy_slots head mask old i zero fresh = fresh
copy_slots head mask old i (suc n) fresh =
    copy_slots head mask old (suc i) n (set fresh i (slot_at old (bit_and (head + i) mask)))

unfoldable pub grow : RingPriceLevel → RingPriceLevel
grow pl = record pl {
  orders = copy_slots pl.head pl.mask pl.orders 0 pl.count (replicate (length pl.orders * 2) none);
  head = 0;
  tail = pl.count;
  mask = length pl.orders * 2 - 1;
}

-- `AddOrder` past the test for room.
unfoldable pub enqueue : Heap → ℕ → RingPriceLevel → RingPriceLevel
enqueue h p pl = record pl {
  orders = set pl.orders pl.tail (some p);
  tail = bit_and (pl.tail + 1) pl.mask;
  count = pl.count + 1;
  total_qty = add64 pl.total_qty (remaining_qty (h p));
}

unfoldable pub add_order : Heap → ℕ → RingPriceLevel → RingPriceLevel
add_order h p pl = enqueue h p (if nat_beq pl.count (length pl.orders) then grow pl else pl)

unfoldable pub pop_front : Heap → RingPriceLevel → Option ℕ × RingPriceLevel
pop_front h pl = if nat_beq pl.count 0 then (none, pl) else (
  slot_at pl.orders pl.head,
  record pl {
    orders = set pl.orders pl.head none;
    head = bit_and (pl.head + 1) pl.mask;
    count = pl.count - 1;
    total_qty = sub64 pl.total_qty (remaining_at h (slot_at pl.orders pl.head));
  },
)

unfoldable pub front : RingPriceLevel → Option ℕ
front pl = if nat_beq pl.count 0 then none else slot_at pl.orders pl.head

-- `for i := offset; i > 0; i--`: the slots before the gap move back by one.
unfoldable pub shift_back : ℕ → ℕ → ℕ → List (Option ℕ) → List (Option ℕ)
shift_back head mask zero orders = orders
shift_back head mask (suc i) orders =
    shift_back head mask i
      (set orders (bit_and (head + suc i) mask) (slot_at orders (bit_and (head + suc i - 1) mask)))

-- `for i := offset; i < count-1; i++`, with `n` rounds left: the slots behind move forward.
unfoldable pub shift_forward : ℕ → ℕ → ℕ → ℕ → List (Option ℕ) → List (Option ℕ)
shift_forward head mask i zero orders = orders
shift_forward head mask i (suc n) orders =
    shift_forward head mask (suc i) n
      (set orders (bit_and (head + i) mask) (slot_at orders (bit_and (head + i + 1) mask)))

unfoldable pub remove_front_half : ℕ → RingPriceLevel → RingPriceLevel
remove_front_half offset pl = record pl {
  orders = set (shift_back pl.head pl.mask offset pl.orders) pl.head none;
  head = bit_and (pl.head + 1) pl.mask;
  count = pl.count - 1;
}

-- `tail - 1 + len` is not negative.
unfoldable pub remove_back_half : ℕ → RingPriceLevel → RingPriceLevel
remove_back_half offset pl =
    let tail' = bit_and (pl.tail + length pl.orders - 1) pl.mask in
    record pl {
      orders =
          set (shift_forward pl.head pl.mask offset (pl.count - 1 - offset) pl.orders) tail' none;
      tail = tail';
      count = pl.count - 1;
    }

unfoldable pub without_qty : Heap → Option ℕ → RingPriceLevel → RingPriceLevel
without_qty h removed pl = record pl { total_qty = sub64 pl.total_qty (remaining_at h removed) }

-- `removeAt`
unfoldable pub remove_at : Heap → ℕ → RingPriceLevel → Option ℕ × RingPriceLevel
remove_at h offset pl =
    let removed = slot_at pl.orders (bit_and (pl.head + offset) pl.mask) in
    let pl' = without_qty h removed pl in
    (
      removed,
      if ltb offset (pl.count / 2)
          then remove_front_half offset pl'
          else remove_back_half offset pl',
    )

-- Whether a slot holds the order with this identifier.
abbrev pub has_id : Heap → ℤ → Option ℕ → Bool
has_id h id none = false
has_id h id (some p) = eqb_ℤ (h p).id id

-- The search of `RemoveOrder`: the first offset from `i` on, with `n` slots left.
unfoldable pub find_offset : Heap → ℤ → RingPriceLevel → ℕ → ℕ → Option ℕ
find_offset h id pl i zero = none
find_offset h id pl i (suc n) =
    if has_id h id (slot_at pl.orders (bit_and (pl.head + i) pl.mask))
    then some i
    else find_offset h id pl (suc i) n

unfoldable pub remove_order : Heap → ℤ → RingPriceLevel → Option ℕ × RingPriceLevel
remove_order h id pl =
    if nat_beq pl.count 0 then (none, pl) else elim (find_offset h id pl 0 pl.count) [
      | none ↦ (none, pl)
      | some offset ↦ remove_at h offset pl
    ]

unfoldable pub len : RingPriceLevel → ℕ
len pl = pl.count

unfoldable pub is_empty : RingPriceLevel → Bool
is_empty pl = nat_beq pl.count 0

unfoldable pub match_qty : ℤ → RingPriceLevel → ℤ
match_qty taker_qty pl = if leb_ℤ pl.total_qty taker_qty then pl.total_qty else taker_qty

-- What `ForEach` hands to its function, in order.
unfoldable pub for_each : RingPriceLevel → ℕ → ℕ → List (Option ℕ)
for_each pl i zero = []
for_each pl i (suc n) = slot_at pl.orders (bit_and (pl.head + i) pl.mask) ∷ for_each pl (suc i) n
