-- ===== src/Mtrade/Matcher/Fill.antt =====
-- Filling an order by part of what it has left.
use little_cex.Prelude.{
  ℕ, ◌+◌, ◌-◌, ◌^◌, ◌≤◌, ◌<◌, ◌≡◌, ◌≢◌, refl, pos, if◌then◌else◌, nat_beq, nat_beq_iff,
  nat_beq-false, ltb, ◌≤ℤ◌, pos_part, add64-eq-+ℤ, sub64-eq--ℤ, +ℤ_parts, -ℤ_parts, eq_of_parts,
  arith,
}
use little_cex.Mtrade.Order.{Order, remaining_qty, is_filled, Heap, update}
use little_cex.Mtrade.Matcher.{fill, min64}

-- Filled by no less than nothing and no more than its quantity.
pub record IsFillable (o : Order) : Type 0 where
  pub filled_nonneg : pos 0 ≤ℤ o.filled_qty
  pub filled_le : o.filled_qty ≤ℤ o.qty
  pub qty_fits : pos_part o.qty < 2 ^ 63

-- What an order has left, as a number.
abbrev pub left : Order → ℕ
left o = pos_part o.qty - pos_part o.filled_qty

pub remaining_qty-left : (o : Order) → IsFillable o → remaining_qty o ≡ pos (left o)
remaining_qty-left o v =
    grind (arith, eq_of_parts, sub64-eq--ℤ o.qty o.filled_qty, -ℤ_parts o.qty o.filled_qty)

pub fill_lem :
    (k : ℕ) (o : Order)
    → IsFillable o
    → k ≤ left o
    → (fill (pos k) o).filled_qty ≡ pos (pos_part o.filled_qty + k)
unfolding fill
fill_lem k o v h =
    grind (arith, eq_of_parts, add64-eq-+ℤ o.filled_qty (pos k), +ℤ_parts o.filled_qty (pos k))

pub fill-IsFillable : (k : ℕ) (o : Order) → IsFillable o → k ≤ left o → IsFillable (fill (pos k) o)
unfolding fill
fill-IsFillable k o v h = ground (arith, fill_lem k o v h)

pub left-fill : (k : ℕ) (o : Order) → IsFillable o → k ≤ left o → left (fill (pos k) o) ≡ left o - k
unfolding fill
left-fill k o v h = ground (arith, fill_lem k o v h)

pub is_filled-left : (o : Order) → IsFillable o → is_filled o ≡ nat_beq (left o) 0
is_filled-left o v = ground arith

pub min64-pos : (a b : ℕ) → min64 (pos a) (pos b) ≡ pos (if ltb a b then a else b)
unfolding min64
min64-pos a b = ground arith

pub update_self : (p : ℕ) (f : Order → Order) (h : Heap) → update p f h p ≡ f (h p)
unfolding update
update_self p f h = ground (arith, (nat_beq_iff p p).1 refl)

pub update_ne : (p q : ℕ) (f : Order → Order) (h : Heap) → q ≢ p → update p f h q ≡ h q
unfolding update
update_ne p q f h ne = ground (arith, nat_beq-false q p ne)
