-- ===== src/Mtrade/Level/Middle.antt =====
-- Taking an order out of the middle of a ring.
use Prim.Native.Nat.{bit_and}
use native.Mathlib.Nat.{mod-add-mod, add-mod_right}
use little_cex.Prelude.{
  ℕ, zero, suc, ◌+◌, ◌-◌, ◌/◌, ◌%◌, ◌<◌, ◌≡◌, refl, ap, ap₂, ◌∙◌, sym, Option, none, List, ◌∷◌,
  if◌then◌else◌, nat_beq-false, ltb, length, set, length-set, arith, Bool-cases, inl, inr,
}
use little_cex.Mtrade.Order.{Heap}
use little_cex.Mtrade.Level.{
  RingPriceLevel, slot_at, shift_back, shift_forward, remove_front_half, remove_back_half,
  without_qty, remove_at, for_each,
}
use little_cex.Mtrade.Level.Slots.{
  slot, slot-set, length-shift_back, length-shift_forward, slot-shift_back, slot-shift_forward,
}
use little_cex.Mtrade.Level.Table.{table, erase_at, table-cong, erase_at-table, skip}
use little_cex.Mtrade.Level.Ring.{IsRing, contents, masked, slots, contents-eq-table}
use little_cex.Mtrade.Level.Remove.{advanced, advanced-IsRing, slots-advanced, suc_pred, pred_suc}

add_one : (j : ℕ) → j + 1 ≡ suc j
add_one j = omega arith

-- The contents without the one at `offset`.
contents_erase :
    {pl : RingPriceLevel} (offset : ℕ)
    → IsRing pl
    → offset < pl.count
    → erase_at offset (contents pl) ≡ table (skip offset (slots pl)) 0 (pl.count - 1)
contents_erase {pl} offset v h =
    ap (erase_at offset)
      (contents-eq-table v ∙ ap (table (slots pl) 0) (suc_pred pl.count (omega arith)))
    ∙ erase_at-table (slots pl) 0 offset (pl.count - 1) (omega arith)
    ∙ ap (λ (k : ℕ). table (skip k (slots pl)) 0 (pl.count - 1)) (omega arith)

remove_front_half-contents :
    (offset : ℕ) (pl : RingPriceLevel)
    → IsRing pl
    → offset < pl.count
    → IsRing (remove_front_half offset pl)
      × (contents (remove_front_half offset pl) ≡ erase_at offset (contents pl))
unfolding remove_front_half
remove_front_half-contents offset pl v h = (
  ring,
  contents-eq-table ring
      ∙ table-cong _ (skip offset (slots pl)) 0 (pl.count - 1) (λ j _ under. moved j (omega arith))
      ∙ sym (contents_erase offset v h),
)
  where
    orders' : List (Option ℕ)
    orders' = shift_back pl.head pl.mask offset pl.orders

    same : length orders' ≡ length pl.orders
    same = length-shift_back pl.head pl.mask offset pl.orders

    some_left : 0 < pl.count
    some_left = omega arith

    ring : IsRing (advanced v orders' same some_left pl.total_qty)
    ring = advanced-IsRing v orders' same some_left pl.total_qty

    moved :
        (j : ℕ)
        → j < pl.count - 1
        → slots (advanced v orders' same some_left pl.total_qty) j ≡ skip offset (slots pl) j
    moved j under =
        slots-advanced v orders' same some_left pl.total_qty j (omega (arith, v.count_in))
        ∙ slot-shift_back (length pl.orders) pl.head pl.mask (masked v) v.head_in offset (suc j)
            pl.orders (omega arith) (omega (arith, v.count_in)) (omega (arith, v.count_in))
        ∙ ground (arith, ap (slot pl.orders (length pl.orders) pl.head) (pred_suc j))

-- The tail, one place back.
tail_back :
    {pl : RingPriceLevel}
    → IsRing pl
    → 0 < pl.count
    → bit_and (pl.tail + length pl.orders - 1) pl.mask
      ≡ (pl.head + (pl.count - 1)) % length pl.orders
tail_back {pl} v h =
    masked v (pl.tail + length pl.orders - 1)
    ∙ ap (λ (a : ℕ). a % m) (omega (arith, v.head_in))
    ∙ ap (λ (t : ℕ). (t + (m - 1)) % m) v.tail_at
    ∙ mod-add-mod (pl.head + pl.count) m (m - 1)
    ∙ ap (λ (a : ℕ). a % m) (omega (arith, v.head_in))
    ∙ add-mod_right (pl.head + (pl.count - 1)) m
  where
    m : ℕ
    m = length pl.orders

remove_back_half-contents :
    (offset : ℕ) (pl : RingPriceLevel)
    → IsRing pl
    → offset < pl.count
    → IsRing (remove_back_half offset pl)
      × (contents (remove_back_half offset pl) ≡ erase_at offset (contents pl))
unfolding remove_back_half
remove_back_half-contents offset pl v h = (
  ring,
  contents-eq-table ring
      ∙ table-cong _ (skip offset (slots pl)) 0 (pl.count - 1) (λ j _ under. moved j (omega arith))
      ∙ sym (contents_erase offset v h),
)
  where
    shifted : List (Option ℕ)
    shifted = shift_forward pl.head pl.mask offset (pl.count - 1 - offset) pl.orders

    same : length shifted ≡ length pl.orders
    same = length-shift_forward pl.head pl.mask offset (pl.count - 1 - offset) pl.orders

    last : ℕ
    last = bit_and (pl.tail + length pl.orders - 1) pl.mask

    kept' : length (set shifted last none) ≡ length pl.orders
    kept' = length-set shifted last none ∙ same

    ring : IsRing (record pl { orders = set shifted last none; tail = last; count = pl.count - 1 })
    ring = record {
      exponent = v.exponent;
      capacity = kept' ∙ v.capacity;
      mask_of = v.mask_of;
      head_in = omega (arith, kept', v.head_in);
      count_in = omega (arith, kept', v.count_in);
      tail_at =
          tail_back v (omega arith) ∙ ap (λ (m : ℕ). (pl.head + (pl.count - 1)) % m) (sym kept');
    }

    moved :
        (j : ℕ)
        → j < pl.count - 1
        → slot (set shifted last none) (length (set shifted last none)) pl.head j
          ≡ skip offset (slots pl) j
    moved j under =
        ap₂ (λ (m i : ℕ). slot (set shifted i none) m pl.head j) kept' (tail_back v (omega arith))
        ∙ slot-set shifted (length pl.orders) pl.head (pl.count - 1) j none (omega (arith, same))
            v.head_in (omega (arith, v.count_in)) (omega (arith, v.count_in))
        ∙ rw (nat_beq-false j (pl.count - 1) (omega arith)) (
            slot-shift_forward (length pl.orders) pl.head pl.mask (masked v) v.head_in offset
              (pl.count - 1 - offset) j pl.orders (omega arith) (omega (arith, v.count_in))
              (omega (arith, v.count_in))
            ∙ ground (arith, ap (slot pl.orders (length pl.orders) pl.head) (add_one j)))

without_qty-IsRing :
    (h : Heap) (x : Option ℕ) {pl : RingPriceLevel} → IsRing pl → IsRing (without_qty h x pl)
unfolding without_qty
without_qty-IsRing h x v = record {
  exponent = v.exponent;
  capacity = v.capacity;
  mask_of = v.mask_of;
  head_in = v.head_in;
  count_in = v.count_in;
  tail_at = v.tail_at;
}

for_each-without_qty :
    (h : Heap) (x : Option ℕ) (pl : RingPriceLevel) (i n : ℕ)
    → for_each (without_qty h x pl) i n ≡ for_each pl i n
unfolding for_each without_qty
for_each-without_qty h x pl i zero = refl
for_each-without_qty h x pl i (suc n) =
    ap (λ (xs : List (Option ℕ)). slot_at pl.orders (bit_and (pl.head + i) pl.mask) ∷ xs)
      (for_each-without_qty h x pl (suc i) n)

contents-without_qty :
    (h : Heap) (x : Option ℕ) (pl : RingPriceLevel) → contents (without_qty h x pl) ≡ contents pl
unfolding without_qty
contents-without_qty h x pl = for_each-without_qty h x pl 0 pl.count

count-without_qty :
    (h : Heap) (x : Option ℕ) (pl : RingPriceLevel) → (without_qty h x pl).count ≡ pl.count
unfolding without_qty
count-without_qty h x pl = refl

-- `removeAt`, on either half, returns the order at the offset and leaves a ring of the others, in
-- their order.
pub remove_at-contents :
    (h : Heap) (offset : ℕ) (pl : RingPriceLevel)
    → IsRing pl
    → offset < pl.count
    → let (removed, pl') = remove_at h offset pl in
      (removed ≡ slots pl offset) × IsRing pl' × (contents pl' ≡ erase_at offset (contents pl))
unfolding remove_at
remove_at-contents h offset pl v under =
    (ap (slot_at pl.orders) (masked v (pl.head + offset)), halves.0, halves.1)
  where
    x : Option ℕ
    x = slot_at pl.orders (bit_and (pl.head + offset) pl.mask)

    v' : IsRing (without_qty h x pl)
    v' = without_qty-IsRing h x v

    under' : offset < (without_qty h x pl).count
    under' = omega (arith, count-without_qty h x pl)

    same : erase_at offset (contents (without_qty h x pl)) ≡ erase_at offset (contents pl)
    same = ap (erase_at offset) (contents-without_qty h x pl)

    halves :
        let pl' =
          if ltb offset (pl.count / 2)
          then remove_front_half offset (without_qty h x pl)
          else remove_back_half offset (without_qty h x pl) in
        IsRing pl' × (contents pl' ≡ erase_at offset (contents pl))
    halves = elim (Bool-cases (ltb offset (pl.count / 2))) [
      | inl e ↦ rw e (
          let (ring, kept) = remove_front_half-contents offset (without_qty h x pl) v' under' in
          (ring, kept ∙ same))
      | inr e ↦ rw e (
          let (ring, kept) = remove_back_half-contents offset (without_qty h x pl) v' under' in
          (ring, kept ∙ same))
    ]
