-- ===== src/Mtrade/Level/Search.antt =====
-- `RemoveOrder`: the search by identifier, and what is removed.
use Prim.Native.Nat.{bit_and}
use little_cex.Prelude.{
  ℕ, zero, suc, ◌+◌, ◌-◌, ◌≤◌, ◌<◌, ◌≡◌, refl, ap, ◌∙◌, sym, subst, ℤ, Bool, true, false, Option,
  none, some, List, [], ◌∷◌, if◌then◌else◌, nat_beq, length, get_or, arith, Bool-cases,
  Option-cases, inl, inr,
}
use little_cex.Mtrade.Order.{Heap}
use little_cex.Mtrade.Level.{RingPriceLevel, slot_at, has_id, find_offset, remove_order, for_each}
use little_cex.Mtrade.Level.Table.{table, erase_at}
use little_cex.Mtrade.Level.Ring.{IsRing, contents, slots, contents-eq-table}
use little_cex.Mtrade.Level.Middle.{remove_at-contents}
use little_cex.Mtrade.Level.Front.{length-contents}

module _ (f : Option ℕ → Bool) where
  -- The first that passes the test, and the list without it.
  abbrev pub first_of : List (Option ℕ) → Option ℕ
  first_of [] = none
  first_of (x ∷ xs) = if f x then x else first_of xs

  abbrev pub drop_first : List (Option ℕ) → List (Option ℕ)
  drop_first [] = []
  drop_first (x ∷ xs) = if f x then xs else x ∷ drop_first xs

  abbrev index_from : ℕ → List (Option ℕ) → Option ℕ
  index_from i [] = none
  index_from i (x ∷ xs) = if f x then some i else index_from (suc i) xs

  -- Where the search ends, counted from `i`.
  Found : ℕ → List (Option ℕ) → Option ℕ → Type 0
  Found i xs none = (first_of xs ≡ none) × (drop_first xs ≡ xs)
  Found i xs (some k) =
      (i ≤ k)
      × (k < i + length xs)
      × (get_or xs (k - i) none ≡ first_of xs)
      × (erase_at (k - i) xs ≡ drop_first xs)

  later-Found :
      (i : ℕ) (x : Option ℕ) (xs : List (Option ℕ)) (o : Option ℕ)
      → f x ≡ false
      → Found (suc i) xs o
      → Found i (x ∷ xs) o
  unfolding Found
  later-Found i x xs none h (a, b) = (rw h a, rw h (ap (λ (ys : List (Option ℕ)). x ∷ ys) b))
  later-Found i x xs (some k) h (a, b, c, d) = (
    omega arith,
    omega arith,
    ap (λ (j : ℕ). get_or (x ∷ xs) j none) (later k a) ∙ c ∙ rw h refl,
    ap (λ (j : ℕ). erase_at j (x ∷ xs)) (later k a)
        ∙ ap (λ (ys : List (Option ℕ)). x ∷ ys) d
        ∙ rw h refl,
  )
    where
      later : (k : ℕ) → suc i ≤ k → k - i ≡ suc (k - suc i)
      later k le = omega arith

  index_from-Found : (i : ℕ) (xs : List (Option ℕ)) → Found i xs (index_from i xs)
  unfolding Found
  index_from-Found i [] = (refl, refl)
  index_from-Found i (x ∷ xs) = elim (Bool-cases (f x)) [
    | inl here ↦ rw here (
      omega arith,
      omega arith,
      ap (λ (j : ℕ). get_or (x ∷ xs) j none) at_start ∙ rw here refl,
      ap (λ (j : ℕ). erase_at j (x ∷ xs)) at_start ∙ rw here refl,
    )
    | inr other ↦
        rw other (later-Found i x xs (index_from (suc i) xs) other (index_from-Found (suc i) xs))
  ]
    where
      at_start : i - i ≡ 0
      at_start = omega arith

find_offset-eq-index_from :
    (h : Heap) (id : ℤ) (pl : RingPriceLevel) (i n : ℕ)
    → find_offset h id pl i n ≡ index_from (has_id h id) i (for_each pl i n)
unfolding find_offset for_each
find_offset-eq-index_from h id pl i zero = refl
find_offset-eq-index_from h id pl i (suc n) =
    ap
      (λ (o : Option ℕ).
        if has_id h id (slot_at pl.orders (bit_and (pl.head + i) pl.mask)) then some i else o)
      (find_offset-eq-index_from h id pl (suc i) n)

get_or-table : (f : ℕ → Option ℕ) (i n k : ℕ) → k < n → get_or (table f i n) k none ≡ f (i + k)
get_or-table f i zero k h = absurd (omega arith)
get_or-table f i (suc n) zero h = ap f (omega arith)
get_or-table f i (suc n) (suc k) h = get_or-table f (suc i) n k (omega arith) ∙ ap f (omega arith)

slots-eq-get_or :
    (pl : RingPriceLevel) (k : ℕ)
    → IsRing pl
    → k < pl.count
    → slots pl k ≡ get_or (contents pl) k none
slots-eq-get_or pl k v h = sym (
    ap (λ (xs : List (Option ℕ)). get_or xs k none) (contents-eq-table v)
    ∙ get_or-table (slots pl) 0 pl.count k h
    ∙ ap (slots pl) (omega arith))

from_start : (k : ℕ) → k ≡ k - 0
from_start k = omega arith

empty_contents : (xs : List (Option ℕ)) → length xs ≡ 0 → xs ≡ []
empty_contents [] h = refl
empty_contents (x ∷ xs) h = absurd (omega arith)

find_offset-Found :
    (h : Heap) (id : ℤ) (pl : RingPriceLevel) (o : Option ℕ)
    → find_offset h id pl 0 pl.count ≡ o
    → Found (has_id h id) 0 (contents pl) o
find_offset-Found h id pl o e =
    subst (Found (has_id h id) 0 (contents pl))
      (sym (find_offset-eq-index_from h id pl 0 pl.count) ∙ e)
      (index_from-Found (has_id h id) 0 (contents pl))

-- `RemoveOrder` returns the first order of the ring with the identifier, and leaves a ring of the
-- others, in their order; without such an order it returns nil and leaves the contents.
pub remove_order-contents :
    (h : Heap) (id : ℤ) (pl : RingPriceLevel)
    → IsRing pl
    → let (removed, pl') = remove_order h id pl in
      (removed ≡ first_of (has_id h id) (contents pl))
      × IsRing pl'
      × (contents pl' ≡ drop_first (has_id h id) (contents pl))
unfolding remove_order Found
remove_order-contents h id pl v = elim (Bool-cases (nat_beq pl.count 0)) [
  | inl empty ↦ rw empty (
    sym (ap (first_of (has_id h id)) (nothing empty)),
    v,
    nothing empty ∙ sym (ap (drop_first (has_id h id)) (nothing empty)),
  )
  | inr full ↦ elim (Option-cases (find_offset h id pl 0 pl.count)) [
    | inl e ↦
        let (missing, same) = find_offset-Found h id pl none e in
        rw (full, e) (sym missing, v, sym same)
    | inr (k, e) ↦
        let (_, under, found, rest) = find_offset-Found h id pl (some k) e in
        let inside : k < pl.count = omega (arith, under, length-contents pl) in
        let (removed, ring, kept) = remove_at-contents h k pl v inside in
        rw (full, e)
          (
            removed
                ∙ slots-eq-get_or pl k v inside
                ∙ ap (λ (j : ℕ). get_or (contents pl) j none) (from_start k)
                ∙ found,
            ring,
            kept ∙ ap (λ (j : ℕ). erase_at j (contents pl)) (from_start k) ∙ rest,
          )
  ]
]
  where
    nothing : nat_beq pl.count 0 ≡ true → contents pl ≡ []
    nothing empty = empty_contents (contents pl) (ground (arith, length-contents pl))
