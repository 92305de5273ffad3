-- ===== src/Mtrade/Level/Ring.antt =====
-- The representation invariant of a ring, and what it holds: a queue of orders.
use Prim.Native.Nat.{bit_and}
use native.Mathlib.Nat.{pow-suc, mod-add-mod, mod-eq_of_lt, add_assoc}
use little_cex.Prelude.{
  ℕ, zero, suc, ◌+◌, ◌-◌, ◌*◌, ◌%◌, ◌^◌, ◌≤◌, ◌<◌, ◌≡◌, refl, ap, ap₂, ◌∙◌, sym, ℤ, Option, none,
  some, List, [], ◌∷◌, ◌++◌, if◌then◌else◌, nat_beq, nat_beq_iff, nat_beq-false, length, set,
  replicate, length-set, length-replicate, arith, bit_and-mask, Bool-cases, inl, inr,
}
use little_cex.Mtrade.Order.{Heap}
use little_cex.Mtrade.Level.{
  RingPriceLevel, new_ring_price_level, slot_at, copy_slots, grow, enqueue, add_order, for_each,
}
use little_cex.Mtrade.Level.Slots.{slot, slot-set, length-copy_slots, slot_at-copy_slots}
use little_cex.Mtrade.Level.Table.{table, table-cong, table-snoc}

-- The capacity is a power of two, the mask is one less, and the tail lies `count` behind the head.
pub record IsRing (pl : RingPriceLevel) : Type 0 where
  pub exponent : ℕ
  pub capacity : length pl.orders ≡ 2 ^ exponent
  pub mask_of : pl.mask ≡ 2 ^ exponent - 1
  pub head_in : pl.head < length pl.orders
  pub count_in : pl.count ≤ length pl.orders
  pub tail_at : pl.tail ≡ (pl.head + pl.count) % length pl.orders

-- What `ForEach` visits: the orders from the head to the tail.
abbrev pub contents : RingPriceLevel → List (Option ℕ)
contents pl = for_each pl 0 pl.count

pub masked : {pl : RingPriceLevel} → IsRing pl → (x : ℕ) → bit_and x pl.mask ≡ x % length pl.orders
masked {pl} v x =
    ap (bit_and x) v.mask_of ∙ bit_and-mask v.exponent x ∙ ap (λ (m : ℕ). x % m) (sym v.capacity)

-- The slots of a ring by distance.
abbrev pub slots : RingPriceLevel → ℕ → Option ℕ
slots pl = slot pl.orders (length pl.orders) pl.head

for_each-eq-table :
    (pl : RingPriceLevel) (i n : ℕ) → IsRing pl → for_each pl i n ≡ table (slots pl) i n
unfolding for_each
for_each-eq-table pl i zero v = refl
for_each-eq-table pl i (suc n) v =
    ap₂ (λ (x : Option ℕ) (xs : List (Option ℕ)). x ∷ xs)
      (ap (slot_at pl.orders) (masked v (pl.head + i))) (for_each-eq-table pl (suc i) n v)

pub contents-eq-table :
    {pl : RingPriceLevel} → IsRing pl → contents pl ≡ table (slots pl) 0 pl.count
contents-eq-table {pl} v = for_each-eq-table pl 0 pl.count v

-- A new level is an empty ring.
pub new_ring_price_level-IsRing : (price : ℤ) → IsRing (new_ring_price_level price)
unfolding new_ring_price_level
new_ring_price_level-IsRing price = record {
  exponent = 6;
  capacity = refl;
  mask_of = refl;
  head_in = omega arith;
  count_in = omega arith;
  tail_at = refl;
}

-- One step on from a place, taken modulo the capacity.
next_place : (m a : ℕ) → (a % m + 1) % m ≡ (a + 1) % m
next_place m a = mod-add-mod a m 1

-- Room for one more.
enqueue-IsRing :
    (h : Heap) (p : ℕ) {pl : RingPriceLevel}
    → IsRing pl
    → pl.count < length pl.orders
    → IsRing (enqueue h p pl)
unfolding enqueue
enqueue-IsRing h p {pl} v room = record {
  exponent = v.exponent;
  capacity = same ∙ v.capacity;
  mask_of = v.mask_of;
  head_in = omega (arith, same, v.head_in);
  count_in = omega (arith, same);
  tail_at =
      masked v (pl.tail + 1)
      ∙ ap (λ (t : ℕ). (t + 1) % length pl.orders) v.tail_at
      ∙ next_place (length pl.orders) (pl.head + pl.count)
      ∙ ap₂ (λ (a m : ℕ). a % m) (add_assoc pl.head pl.count 1) (sym same);
}
  where
    same : length (set pl.orders pl.tail (some p)) ≡ length pl.orders
    same = length-set pl.orders pl.tail (some p)

slots-enqueue :
    (h : Heap) (p j : ℕ) {pl : RingPriceLevel}
    → IsRing pl
    → pl.count < length pl.orders
    → j < length pl.orders
    → slots (enqueue h p pl) j ≡ (if nat_beq j pl.count then some p else slots pl j)
unfolding enqueue
slots-enqueue h p j {pl} v room hj =
    ap₂ (λ (t m : ℕ). slot (set pl.orders t (some p)) m pl.head j) v.tail_at
      (length-set pl.orders pl.tail (some p))
    ∙ slot-set pl.orders (length pl.orders) pl.head pl.count j (some p) (omega arith) v.head_in room
        hj

enqueue-contents :
    (h : Heap) (p : ℕ) {pl : RingPriceLevel}
    → IsRing pl
    → pl.count < length pl.orders
    → contents (enqueue h p pl) ≡ contents pl ++ (some p ∷ [])
enqueue-contents h p {pl} v room =
    contents-eq-table (enqueue-IsRing h p v room)
    ∙ ap (table f 0) grown
    ∙ table-snoc f 0 pl.count
    ∙ ap₂ (λ (xs : List (Option ℕ)) (x : Option ℕ). xs ++ (x ∷ []))
        (table-cong f (slots pl) 0 pl.count (λ j _ under. old j (omega arith))
          ∙ sym (contents-eq-table v))
        (ap f (omega arith)
          ∙ slots-enqueue h p pl.count v room room
          ∙ rw ((nat_beq_iff pl.count pl.count).1 refl) refl)
  where
    f : ℕ → Option ℕ
    f = slots (enqueue h p pl)

    grown : (enqueue h p pl).count ≡ suc pl.count
    grown = unfold enqueue in omega arith

    old : (j : ℕ) → j < pl.count → f j ≡ slots pl j
    old j under =
        slots-enqueue h p j v room (omega arith) ∙ rw (nat_beq-false j pl.count (omega arith)) refl

grow-IsRing : {pl : RingPriceLevel} → IsRing pl → IsRing (grow pl)
unfolding grow
grow-IsRing {pl} v = record {
  exponent = suc v.exponent;
  capacity = doubled ∙ ap (λ (m : ℕ). m * 2) v.capacity ∙ sym (pow-suc 2 v.exponent);
  mask_of = omega (arith, v.capacity, pow-suc 2 v.exponent);
  head_in = omega (arith, doubled, v.head_in);
  count_in = omega (arith, doubled, v.count_in);
  tail_at =
      omega arith
      ∙ sym (mod-eq_of_lt {n = pl.count} {m = length pl.orders * 2} (omega arith))
      ∙ ap₂ (λ (a m : ℕ). a % m) (omega arith) (sym doubled);
}
  where
    fresh : List (Option ℕ)
    fresh = replicate (length pl.orders * 2) none

    doubled : length (copy_slots pl.head pl.mask pl.orders 0 pl.count fresh) ≡ length pl.orders * 2
    doubled =
        length-copy_slots pl.head pl.mask pl.orders 0 pl.count fresh
        ∙ length-replicate (length pl.orders * 2) none

grow-contents : {pl : RingPriceLevel} → IsRing pl → contents (grow pl) ≡ contents pl
unfolding grow
grow-contents {pl} v =
    contents-eq-table (grow-IsRing v)
    ∙ table-cong (slots (grow pl)) (slots pl) 0 (grow pl).count (λ j _ under. moved j (omega arith))
    ∙ sym (contents-eq-table v)
  where
    fresh : List (Option ℕ)
    fresh = replicate (length pl.orders * 2) none

    place :
        (j : ℕ)
        → j < pl.count
        → (0 + j) % length (copy_slots pl.head pl.mask pl.orders 0 pl.count fresh) ≡ j
    place j under =
        ap₂ (λ (a m : ℕ). a % m) (omega arith)
          (length-copy_slots pl.head pl.mask pl.orders 0 pl.count fresh
            ∙ length-replicate (length pl.orders * 2) none)
        ∙ mod-eq_of_lt {n = j} {m = length pl.orders * 2} (omega (arith, v.count_in))

    moved : (j : ℕ) → j < pl.count → slots (grow pl) j ≡ slots pl j
    moved j under =
        ap (slot_at (copy_slots pl.head pl.mask pl.orders 0 pl.count fresh)) (place j under)
        ∙ slot_at-copy_slots (length pl.orders) pl.head pl.mask (masked v) v.head_in pl.orders 0
            pl.count j fresh
            (omega (arith, length-replicate {A = Option ℕ} (length pl.orders * 2) none, v.count_in))
        ∙ ground arith

length-grow : (pl : RingPriceLevel) → length (grow pl).orders ≡ length pl.orders * 2
unfolding grow
length-grow pl =
    length-copy_slots pl.head pl.mask pl.orders 0 pl.count (replicate (length pl.orders * 2) none)
    ∙ length-replicate (length pl.orders * 2) none

count-grow : (pl : RingPriceLevel) → (grow pl).count ≡ pl.count
unfolding grow
count-grow pl = refl

-- `AddOrder`, growing the ring when it is full, keeps it a ring and puts the order at the end.
pub add_order-contents :
    (h : Heap) (p : ℕ) (pl : RingPriceLevel)
    → IsRing pl
    → IsRing (add_order h p pl) × (contents (add_order h p pl) ≡ contents pl ++ (some p ∷ []))
unfolding add_order
add_order-contents h p pl v = elim (Bool-cases (nat_beq pl.count (length pl.orders))) [
  | inl full ↦ rw full (
    enqueue-IsRing h p (grow-IsRing v)
        (omega (arith, length-grow pl, count-grow pl, v.head_in, v.count_in)),
    enqueue-contents h p (grow-IsRing v)
          (omega (arith, length-grow pl, count-grow pl, v.head_in, v.count_in))
        ∙ ap (λ (xs : List (Option ℕ)). xs ++ (some p ∷ [])) (grow-contents v),
  )
  | inr room ↦ rw room (
    enqueue-IsRing h p v (ground (arith, v.count_in)),
    enqueue-contents h p v (ground (arith, v.count_in)),
  )
]
