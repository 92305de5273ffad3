-- ===== src/Mtrade/Level/Remove.antt =====
-- Taking orders out of a ring: from the front, and from the middle.
use Prim.Native.Nat.{bit_and}
use native.Mathlib.Nat.{mod-lt, mod-add-mod, mod-eq_of_lt}
use little_cex.Prelude.{
  sub64, ℕ, suc, ◌+◌, ◌-◌, ◌%◌, ◌<◌, ◌≡◌, refl, ap, ap₂, ◌∙◌, sym, ℤ, Option, none, List, ◌∷◌,
  nat_beq-false, length, set, length-set, arith,
}
use little_cex.Mtrade.Order.{Heap}
use little_cex.Mtrade.Level.{remaining_at, RingPriceLevel, slot_at, pop_front}
use little_cex.Mtrade.Level.Slots.{slot, slot-set}
use little_cex.Mtrade.Level.Table.{table, table-cong, table-suc}
use little_cex.Mtrade.Level.Ring.{IsRing, contents, masked, slots, contents-eq-table}

-- The slots as seen from the next head.
slot_advance :
    (orders : List (Option ℕ)) (cap h j : ℕ)
    → slot orders cap ((h + 1) % cap) j ≡ slot orders cap h (suc j)
slot_advance orders cap h j =
    ap (slot_at orders) (mod-add-mod (h + 1) cap j ∙ ap (λ (a : ℕ). a % cap) (omega arith))

head_place : {pl : RingPriceLevel} → IsRing pl → pl.head ≡ (pl.head + 0) % length pl.orders
head_place {pl} v =
    sym (mod-eq_of_lt {n = pl.head} {m = length pl.orders} v.head_in)
    ∙ ap (λ (a : ℕ). a % length pl.orders) (omega arith)

-- A ring whose head slot is cleared and left behind, over the storage `orders`.
module _ {pl : RingPriceLevel} (v : IsRing pl) (orders : List (Option ℕ))
    (same : length orders ≡ length pl.orders) (some_left : 0 < pl.count) where
  abbrev pub advanced : ℤ → RingPriceLevel
  advanced total = record pl {
    orders = set orders pl.head none;
    head = bit_and (pl.head + 1) pl.mask;
    count = pl.count - 1;
    total_qty = total;
  }

  kept : length (set orders pl.head none) ≡ length pl.orders
  kept = length-set orders pl.head none ∙ same

  pub advanced-IsRing : (total : ℤ) → IsRing (advanced total)
  advanced-IsRing total = record {
    exponent = v.exponent;
    capacity = kept ∙ v.capacity;
    mask_of = v.mask_of;
    head_in = omega (
      arith,
      masked v (pl.head + 1),
      kept,
      mod-lt (pl.head + 1) {m = length pl.orders} (omega (arith, v.head_in)),
    );
    count_in = omega (arith, kept, v.count_in);
    tail_at =
        v.tail_at
        ∙ ap (λ (a : ℕ). a % length pl.orders) (omega arith)
        ∙ sym (mod-add-mod (pl.head + 1) (length pl.orders) (pl.count - 1))
        ∙ ap₂ (λ (a m : ℕ). (a + (pl.count - 1)) % m) (sym (masked v (pl.head + 1))) (sym kept);
  }

  pub slots-advanced :
      (total : ℤ) (j : ℕ)
      → suc j < length pl.orders
      → slots (advanced total) j ≡ slot orders (length pl.orders) pl.head (suc j)
  slots-advanced total j under =
      ap₂ (λ (m hd : ℕ). slot (set orders pl.head none) m hd j) kept (masked v (pl.head + 1))
      ∙ slot_advance (set orders pl.head none) (length pl.orders) pl.head j
      ∙ ap (λ (i : ℕ). slot (set orders i none) (length pl.orders) pl.head (suc j)) (head_place v)
      ∙ slot-set orders (length pl.orders) pl.head 0 (suc j) none (omega (arith, same)) v.head_in
          (omega arith) under
      ∙ ground arith

-- `pred` of a count that is not 0.
pub suc_pred : (n : ℕ) → 0 < n → n ≡ suc (n - 1)
suc_pred n h = omega arith

pub pred_suc : (j : ℕ) → suc j - 1 ≡ j
pred_suc j = omega arith

contents_uncons :
    {pl : RingPriceLevel}
    → IsRing pl
    → 0 < pl.count
    → contents pl ≡ slots pl 0 ∷ table (λ j. slots pl (suc j)) 0 (pl.count - 1)
contents_uncons {pl} v h =
    contents-eq-table v
    ∙ ap (table (slots pl) 0) (suc_pred pl.count h)
    ∙ ap (λ (xs : List (Option ℕ)). slots pl 0 ∷ xs) (table-suc (slots pl) 0 (pl.count - 1))

-- `PopFront` of a ring that is not empty returns the first of its orders and leaves a ring of the
-- others, in their order.
pub pop_front-contents :
    (h : Heap) (pl : RingPriceLevel)
    → IsRing pl
    → 0 < pl.count
    → let (first, pl') = pop_front h pl in IsRing pl' × (contents pl ≡ first ∷ contents pl')
unfolding pop_front
pop_front-contents h pl v some_left = rw (nat_beq-false pl.count 0 (omega arith)) (
  ring,
  contents_uncons v some_left
      ∙ ap₂ (λ (x : Option ℕ) (xs : List (Option ℕ)). x ∷ xs)
          (ap (slot_at pl.orders) (sym (head_place v)))
          (table-cong (λ j. slots pl (suc j)) _ 0 (pl.count - 1)
              (λ j _ under.
                sym (slots-advanced v pl.orders refl some_left total j (omega (arith, v.count_in))))
            ∙ sym (contents-eq-table ring)),
)
  where
    total : ℤ
    total = sub64 pl.total_qty (remaining_at h (slot_at pl.orders pl.head))

    ring : IsRing (advanced v pl.orders refl some_left total)
    ring = advanced-IsRing v pl.orders refl some_left total
