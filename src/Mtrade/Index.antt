-- ===== src/Mtrade/Index.antt =====
-- The price index of a book's side (`PriceIndex` of pkg/mtrade/price_index.go): what the book uses
-- of it and relies on. A node is the price that leads to it, and `put` is a write through a node to
-- its level. The program's implementation is SkipList, as SkipList/Indexed gives it.
use little_cex.Prelude.{ℕ, ◌≢◌, ℤ, ◌≡◌, if◌then◌else◌, eqb_ℤ, Option, none, some, Bool}
use little_cex.Mtrade.Level.{RingPriceLevel, new_ring_price_level}

-- The level that `Insert` leads to.
abbrev pub or_new_level : ℤ → Option RingPriceLevel → RingPriceLevel
or_new_level price none = new_ring_price_level price
or_new_level price (some level) = level

pub record PriceIndex : Type 1 where
  pub Index : Type 0
  -- `NewSkipList`, by whether it is ascending.
  pub empty : Bool → Index
  pub find : ℤ → Index → Option RingPriceLevel
  pub insert : ℤ → Index → Index
  pub put : ℤ → RingPriceLevel → Index → Index
  pub delete : ℤ → Index → Index
  -- `First`, by its price, and `Len`.
  pub first : Index → Option ℤ
  pub len : Index → ℕ
  pub find-empty : (asc : Bool) (p : ℤ) → find p (empty asc) ≡ none
  pub find-insert :
      (p q : ℤ) (i : Index)
      → find p (insert q i) ≡ (if eqb_ℤ p q then some (or_new_level q (find q i)) else find p i)
  pub find-put :
      (p q : ℤ) (level level' : RingPriceLevel) (i : Index)
      → find q i ≡ some level
      → find p (put q level' i) ≡ (if eqb_ℤ p q then some level' else find p i)
  pub find-delete :
      (p q : ℤ) (i : Index) → find p (delete q i) ≡ (if eqb_ℤ p q then none else find p i)
  pub find-first : (p : ℤ) (i : Index) → first i ≡ some p → find p i ≢ none
