-- ===== src/Prelude/Lists.antt =====
-- Lists measured and indexed by native numbers, under the library's names.
use Prim.Native.Nat.{ℕ, zero, suc, ◌+◌, ◌<◌}
use mathlib.Core.Path.{◌≡◌, refl, ap}
use mathlib.Core.Logic.{◌≢◌}
use mathlib.Core.List.{List, [], ◌∷◌, ◌++◌}
use mathlib.Core.Option.{Option, none, some}
use native.Mathlib.Omega.{arith}

module _ {ℓ} {A : Type ℓ} where
  abbrev pub length : List A → ℕ
  length [] = 0
  length (_ ∷ xs) = suc (length xs)

  abbrev pub get_or : List A → ℕ → A → A
  get_or [] _ d = d
  get_or (x ∷ _) zero _ = x
  get_or (_ ∷ xs) (suc i) d = get_or xs i d

  abbrev pub get_at : List A → ℕ → Option A
  get_at [] _ = none
  get_at (x ∷ _) zero = some x
  get_at (_ ∷ xs) (suc i) = get_at xs i

  -- A write out of bounds changes nothing.
  abbrev pub set : List A → ℕ → A → List A
  set [] _ _ = []
  set (_ ∷ xs) zero v = v ∷ xs
  set (x ∷ xs) (suc i) v = x ∷ set xs i v

  abbrev pub take : ℕ → List A → List A
  take zero _ = []
  take (suc n) [] = []
  take (suc n) (x ∷ xs) = x ∷ take n xs

  abbrev pub drop : ℕ → List A → List A
  drop zero xs = xs
  drop (suc n) [] = []
  drop (suc n) (_ ∷ xs) = drop n xs

  abbrev pub replicate : ℕ → A → List A
  replicate zero _ = []
  replicate (suc n) a = a ∷ replicate n a

  pub length-append : (xs ys : List A) → length (xs ++ ys) ≡ length xs + length ys
  length-append [] ys = omega arith
  length-append (_ ∷ xs) ys = omega (arith, length-append xs ys)

  pub length-set : (xs : List A) (i : ℕ) (v : A) → length (set xs i v) ≡ length xs
  length-set [] i v = refl
  length-set (_ ∷ xs) zero v = refl
  length-set (_ ∷ xs) (suc i) v = ap suc (length-set xs i v)

  pub length-replicate : (n : ℕ) (a : A) → length (replicate n a) ≡ n
  length-replicate zero a = refl
  length-replicate (suc n) a = ap suc (length-replicate n a)

  pub get_or-set_self :
      (xs : List A) (i : ℕ) (v d : A) → i < length xs → get_or (set xs i v) i d ≡ v
  get_or-set_self [] i v d h = absurd (omega arith)
  get_or-set_self (_ ∷ xs) zero v d h = refl
  get_or-set_self (_ ∷ xs) (suc i) v d h = get_or-set_self xs i v d (omega arith)

  pub get_or-set_ne :
      (xs : List A) {i j : ℕ} (v d : A) → i ≢ j → get_or (set xs i v) j d ≡ get_or xs j d
  get_or-set_ne [] v d h = refl
  get_or-set_ne (_ ∷ xs) {i = zero} {j = zero} v d h = absurd (h refl)
  get_or-set_ne (_ ∷ xs) {i = zero} {j = suc j} v d h = refl
  get_or-set_ne (_ ∷ xs) {i = suc i} {j = zero} v d h = refl
  get_or-set_ne (_ ∷ xs) {i = suc i} {j = suc j} v d h = get_or-set_ne xs v d (λ e. h (ap suc e))

  pub get_at-set_self :
      (xs : List A) (i : ℕ) (v : A) → i < length xs → get_at (set xs i v) i ≡ some v
  get_at-set_self [] i v h = absurd (omega arith)
  get_at-set_self (_ ∷ xs) zero v h = refl
  get_at-set_self (_ ∷ xs) (suc i) v h = get_at-set_self xs i v (omega arith)

  pub get_at-set_ne : (xs : List A) (i j : ℕ) (v : A) → i ≢ j → get_at (set xs i v) j ≡ get_at xs j
  get_at-set_ne [] i j v h = refl
  get_at-set_ne (_ ∷ xs) zero zero v h = absurd (h refl)
  get_at-set_ne (_ ∷ xs) zero (suc j) v h = refl
  get_at-set_ne (_ ∷ xs) (suc i) zero v h = refl
  get_at-set_ne (_ ∷ xs) (suc i) (suc j) v h = get_at-set_ne xs i j v (λ e. h (ap suc e))

  pub take-append : (xs ys : List A) → take (length xs) (xs ++ ys) ≡ xs
  take-append [] ys = refl
  take-append (x ∷ xs) ys = ap (λ (t : List A). x ∷ t) (take-append xs ys)

  pub drop-append : (xs ys : List A) → drop (length xs) (xs ++ ys) ≡ ys
  drop-append [] ys = refl
  drop-append (_ ∷ xs) ys = drop-append xs ys
