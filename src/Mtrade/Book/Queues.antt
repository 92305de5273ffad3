-- ===== src/Mtrade/Book/Queues.antt =====
-- The queues of a book: what its operations do to the orders at each price.
use little_cex.Prelude.{
  Map, ℕ, ℤ, ◌≡◌, refl, ap, ◌∙◌, Bool, true, Option, none, some, List, [], if◌then◌else◌, ◌&&◌,
  Bool-cases, inl, inr, eqb_ℤ, eqb_ℤ_iff, int_eq,
}
use little_cex.Mtrade.Order.{Side, buy, sell, side_beq, Order, Heap}
use little_cex.Mtrade.Level
use little_cex.Mtrade.Level.{RingPriceLevel, new_ring_price_level, is_empty, for_each}
use little_cex.Mtrade.Level.Ring.{IsRing, contents, new_ring_price_level-IsRing}
use little_cex.Mtrade.Index.{PriceIndex, or_new_level}
use little_cex.Mtrade.Book.{Book, side_index, set_side_index, enter_order, keep_level}

-- The orders at a price, none where there is no level.
abbrev pub orders_in : Option RingPriceLevel → List (Option ℕ)
orders_in none = []
orders_in (some level) = contents level

abbrev pub IsRingIn : Option RingPriceLevel → Type 0
IsRingIn none = Unit {0}
IsRingIn (some level) = IsRing level

pub level_of-IsRing :
    (price : ℤ) (o : Option RingPriceLevel) → IsRingIn o → IsRing (or_new_level price o)
level_of-IsRing price none h = new_ring_price_level-IsRing price
level_of-IsRing price (some level) h = h

pub contents-or_new_level :
    (price : ℤ) (o : Option RingPriceLevel) → contents (or_new_level price o) ≡ orders_in o
unfolding for_each new_ring_price_level
contents-or_new_level price none = refl
contents-or_new_level price (some level) = refl

-- Whether a side and a price are those of an order.
abbrev pub is_place_of : Order → Side → ℤ → Bool
is_place_of o s price = side_beq s o.side && eqb_ℤ price o.price

pub eqb_self : (q : ℤ) → eqb_ℤ q q ≡ true
eqb_self q = (eqb_ℤ_iff q q).1 refl

module _ (P : PriceIndex) where
  -- A level that is found or made, and written back.
  find-entered :
      (p q : ℤ) (f : RingPriceLevel → RingPriceLevel) (i : P.Index)
      → P.find p (P.put q (f (or_new_level q (P.find q (P.insert q i)))) (P.insert q i))
        ≡ (if eqb_ℤ p q then some (f (or_new_level q (P.find q i))) else P.find p i)
  find-entered p q f i =
      P.find-put p q (or_new_level q (P.find q i)) _ (P.insert q i) there
      ∙ elim (Bool-cases (eqb_ℤ p q)) [
        | inl same ↦ rw same (ap (λ (o : Option RingPriceLevel). some (f (or_new_level q o))) there)
        | inr other ↦ rw other (P.find-insert p q i ∙ rw other refl)
      ]
    where
      there : P.find q (P.insert q i) ≡ some (or_new_level q (P.find q i))
      there = P.find-insert q q i ∙ rw (eqb_self q) refl

  -- What `find` gives after `keep_level`.
  pub find-keep_level :
      (p q : ℤ) (level level' : RingPriceLevel) (i : P.Index)
      → P.find q i ≡ some level
      → P.find p (keep_level P q level' i)
        ≡ (if eqb_ℤ p q then (if is_empty level' then none else some level') else P.find p i)
  unfolding keep_level
  find-keep_level p q level level' i h = elim (Bool-cases (is_empty level')) [
    | inl e ↦ rw e (
        P.find-delete p q (P.put q level' i) ∙ elim (Bool-cases (eqb_ℤ p q)) [
          | inl same ↦ rw same refl
          | inr other ↦ rw other (P.find-put p q level level' i h ∙ rw other refl)
        ])
    | inr e ↦ rw e (P.find-put p q level level' i h)
  ]

-- The state of one side after a write to it.
pub find_side :
    {P : PriceIndex} (s t : Side) (b : Book P) (i : P.Index) (price : ℤ) (c : Bool)
    (o : Option RingPriceLevel)
    → P.find price i ≡ (if c then o else P.find price (side_index t b))
    → P.find price (side_index s (set_side_index t i b))
      ≡ (if side_beq s t && c then o else P.find price (side_index s b))
find_side buy buy b i price c o h = h
find_side sell sell b i price c o h = h
find_side buy sell b i price c o h = refl
find_side sell buy b i price c o h = refl

pub side_index_kept :
    {P : PriceIndex} (s : Side) (b : Book P) (idx : Map ℤ ℕ) (h : Heap)
    → side_index s (record b { order_index = idx; heap = h }) ≡ side_index s b
side_index_kept buy b idx h = refl
side_index_kept sell b idx h = refl

module _ {P : PriceIndex} where
  abbrev pub queue_at : Book P → Side → ℤ → List (Option ℕ)
  queue_at b s price = orders_in (P.find price (side_index s b))

  -- Every level of the book is a ring.
  pub record IsBook (b : Book P) : Type 0 where
    pub rings : (s : Side) (price : ℤ) → IsRingIn (P.find price (side_index s b))

  -- The level that `enter_order` writes.
  abbrev pub entered : ℕ → Book P → RingPriceLevel
  entered p b =
      Level.add_order b.heap p
        (or_new_level (b.heap p).price (P.find (b.heap p).price (side_index (b.heap p).side b)))

  pub find-enter_order :
      (p : ℕ) (b : Book P) (s : Side) (price : ℤ)
      → P.find price (side_index s (enter_order p b)) ≡ (
          if is_place_of (b.heap p) s price
          then some (entered p b)
          else P.find price (side_index s b))
  unfolding enter_order
  find-enter_order p b s price =
      ap (P.find price) (side_index_kept {P = P} s _ _ _)
      ∙ find_side {P = P} s (b.heap p).side b _ price (eqb_ℤ price (b.heap p).price)
          (some (entered p b))
          (find-entered P price (b.heap p).price (Level.add_order b.heap p)
            (side_index (b.heap p).side b))
