-- ===== src/Mtrade/Level/Front.antt =====
-- The front of a ring is the first of its contents.
use mathlib.Core.List.{head-eq_of_cons-eq, tail-eq_of_cons-eq}
use little_cex.Prelude.{
  ℕ, zero, suc, ◌<◌, ◌≡◌, refl, ap, ◌∙◌, sym, true, false, Option, List, [], ◌∷◌, nat_beq-false,
  arith, length,
}
use little_cex.Mtrade.Order.{Heap}
use little_cex.Mtrade.Level.{RingPriceLevel, front, is_empty, pop_front, for_each}
use little_cex.Mtrade.Level.Ring.{IsRing, contents}
use little_cex.Mtrade.Level.Remove.{pop_front-contents}

length-for_each : (pl : RingPriceLevel) (i n : ℕ) → length (for_each pl i n) ≡ n
unfolding for_each
length-for_each pl i zero = refl
length-for_each pl i (suc n) = ap suc (length-for_each pl (suc i) n)

pub length-contents : (pl : RingPriceLevel) → length (contents pl) ≡ pl.count
length-contents pl = length-for_each pl 0 pl.count

pub is_empty-contents : (pl : RingPriceLevel) → contents pl ≡ [] → is_empty pl ≡ true
unfolding is_empty
is_empty-contents pl e =
    ground (arith, ap (λ (xs : List (Option ℕ)). length xs) e, length-contents pl)

front-eq-pop_front : (h : Heap) (pl : RingPriceLevel) → front pl ≡ (pop_front h pl).0
unfolding front pop_front
front-eq-pop_front h pl = ground arith

pub front-contents :
    (h : Heap) (pl : RingPriceLevel) (x : Option ℕ) (xs : List (Option ℕ))
    → IsRing pl
    → contents pl ≡ x ∷ xs
    → (is_empty pl ≡ false)
      × (front pl ≡ x)
      × IsRing (pop_front h pl).1
      × (contents (pop_front h pl).1 ≡ xs)
unfolding is_empty
front-contents h pl x xs v e = (
  nat_beq-false pl.count 0 (omega (arith, filled)),
  front-eq-pop_front h pl ∙ head-eq_of_cons-eq (sym popped.1 ∙ e),
  popped.0,
  tail-eq_of_cons-eq (sym popped.1 ∙ e),
)
  where
    filled : 0 < pl.count
    filled = omega (arith, ap (λ (ys : List (Option ℕ)). length ys) e, length-contents pl)

    popped :
        IsRing (pop_front h pl).1 × (contents pl ≡ (pop_front h pl).0 ∷ contents (pop_front h pl).1)
    popped = pop_front-contents h pl v filled
