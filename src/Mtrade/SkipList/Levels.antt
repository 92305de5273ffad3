-- ===== src/Mtrade/SkipList/Levels.antt =====
-- The levels that the nodes of a skip list lead to, by price.
use little_cex.Prelude.{
  ◌≡◌, inl, inr, refl, ℤ, none, [], Map, if◌then◌else◌, eqb_ℤ, arith, Bool-cases, int_eq, bytes_eq,
  nat_eq, lookup, erase, pair_eq,
}
use little_cex.Prelude.{lookup-erase_self, lookup-erase_ne, eqb_ℤ_iff}
use little_cex.Mtrade.Level.{RingPriceLevel}

abbrev pub Levels : Type 0
Levels = Map ℤ RingPriceLevel

pub lookup-erase :
    (p q : ℤ) (m : Levels) → lookup p (erase q m) ≡ (if eqb_ℤ p q then none else lookup p m)
lookup-erase p q m = elim (Bool-cases (eqb_ℤ p q)) [
  | inl same ↦ ground (arith, eqb_ℤ_iff p q, lookup-erase_self q m)
  | inr other ↦ ground (arith, eqb_ℤ_iff p q, lookup-erase_ne p q m)
]

pub lookup_empty : (p : ℤ) → lookup {V = RingPriceLevel} p [] ≡ none
unfolding lookup
lookup_empty p = refl
