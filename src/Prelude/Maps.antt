-- ===== src/Prelude/Maps.antt =====
-- Go's maps as association lists, and the equality of their keys. A Go string is its bytes.
use Prim.Native.Nat.{ℕ}
use Prim.Native.Char.{code}
use Prim.Native.String.{String}
use mathlib.Core.Path.{◌≡◌, refl}
use mathlib.Core.Logic.{◌≢◌, ◌↔◌, inl, inr, ◌⊎◌}
use mathlib.Core.Bool.{Bool, true, false, ◌&&◌}
use mathlib.Core.Option.{Option, none, some}
use mathlib.Core.List.{List, [], ◌∷◌}
use native.Mathlib.Omega.{arith}
use little_cex.Prelude.Tests.{nat_beq, nat_beq_iff, if◌then◌else◌, Bool-cases}
use little_cex.Prelude.Int.{ℤ, eqb_ℤ, eqb_ℤ_iff}

-- Equality of the keys of a map.
pub record Eq (A : Type 0) : Type 0 where
  pub beq : A → A → Bool
  pub beq_iff : (a b : A) → (beq a b ≡ true) ↔ (a ≡ b)

infix 50 ◌==◌
abbrev pub ◌==◌ : {A : Type 0} ⦃e : Eq A⦄ → A → A → Bool
◌==◌ ⦃e⦄ = e.beq

instance abbrev pub nat_eq : Eq ℕ
nat_eq = record { beq = nat_beq; beq_iff = nat_beq_iff }

instance abbrev pub int_eq : Eq ℤ
int_eq = record { beq = eqb_ℤ; beq_iff = eqb_ℤ_iff }

abbrev pub Bytes : Type 0
Bytes = List ℕ

-- The bytes of an ASCII text.
abbrev pub ascii : String → Bytes
ascii String.[] = []
ascii (String.◌∷◌ c s) = code c ∷ ascii s

abbrev pub bytes_beq : Bytes → Bytes → Bool
bytes_beq [] [] = true
bytes_beq [] (_ ∷ _) = false
bytes_beq (_ ∷ _) [] = false
bytes_beq (a ∷ s) (b ∷ t) = nat_beq a b && bytes_beq s t

pub bytes_beq_iff : (s t : Bytes) → (bytes_beq s t ≡ true) ↔ (s ≡ t)
bytes_beq_iff [] [] = ground arith
bytes_beq_iff [] (_ ∷ _) = ground arith
bytes_beq_iff (_ ∷ _) [] = ground arith
bytes_beq_iff (a ∷ s) (b ∷ t) = ground (arith, bytes_beq_iff s t)

instance abbrev pub bytes_eq : Eq Bytes
bytes_eq = record { beq = bytes_beq; beq_iff = bytes_beq_iff }

abbrev pub Map : Type 0 → Type 0 → Type 0
Map K V = List (K × V)

module _ {K : Type 0} ⦃e : Eq K⦄ where
  pub beq_self : (k : K) → e.beq k k ≡ true
  beq_self k = (e.beq_iff k k).1 refl

  pub beq_false : (j k : K) → j ≢ k → e.beq j k ≡ false
  beq_false j k h = elim (Bool-cases (e.beq j k)) [
    | inl t ↦ absurd (h ((e.beq_iff j k).0 t))
    | inr f ↦ f
  ]

module _ {K V : Type 0} ⦃e : Eq K⦄ where
  unfoldable pub lookup : K → Map K V → Option V
  lookup k [] = none
  lookup k ((j, v) ∷ m) = if e.beq k j then some v else lookup k m

  -- `m[k] = v`
  unfoldable pub insert : K → V → Map K V → Map K V
  insert k v [] = (k, v) ∷ []
  insert k v ((j, w) ∷ m) = if e.beq k j then (k, v) ∷ m else (j, w) ∷ insert k v m

  -- `delete(m, k)`
  unfoldable pub erase : K → Map K V → Map K V
  erase k [] = []
  erase k ((j, w) ∷ m) = if e.beq k j then erase k m else (j, w) ∷ erase k m

  pub lookup-insert_self : (k : K) (v : V) (m : Map K V) → lookup k (insert k v m) ≡ some v
  unfolding lookup insert
  lookup-insert_self k v [] = ground (arith, beq_self k)
  lookup-insert_self k v ((j, w) ∷ m) = ground (arith, beq_self k, lookup-insert_self k v m)

  pub lookup-insert_ne :
      (j k : K) (v : V) (m : Map K V) → j ≢ k → lookup j (insert k v m) ≡ lookup j m
  unfolding lookup insert
  lookup-insert_ne j k v [] h = ground (arith, beq_false j k)
  lookup-insert_ne j k v ((i, w) ∷ m) h =
      ground (arith, beq_false j k, lookup-insert_ne j k v m, e.beq_iff k i)

  pub lookup-insert :
      (j k : K) (v : V) (m : Map K V)
      → lookup j (insert k v m) ≡ (if e.beq j k then some v else lookup j m)
  lookup-insert j k v m = elim (Bool-cases (e.beq j k)) [
    | inl t ↦ ground (arith, lookup-insert_self k v m, e.beq_iff j k)
    | inr f ↦ ground (arith, lookup-insert_ne j k v m, e.beq_iff j k)
  ]

  pub lookup-erase_self : (k : K) (m : Map K V) → lookup k (erase k m) ≡ none
  unfolding lookup erase
  lookup-erase_self k [] = refl
  lookup-erase_self k ((j, w) ∷ m) = ground (arith, lookup-erase_self k m)

  pub lookup-erase_ne : (j k : K) (m : Map K V) → j ≢ k → lookup j (erase k m) ≡ lookup j m
  unfolding lookup erase
  lookup-erase_ne j k [] h = refl
  lookup-erase_ne j k ((i, w) ∷ m) h =
      ground (arith, beq_false j k, lookup-erase_ne j k m, e.beq_iff k i)

-- Keys of two parts.
abbrev pair_beq : ℤ × Bytes → ℤ × Bytes → Bool
pair_beq (a, s) (b, t) = eqb_ℤ a b && bytes_beq s t

pub pair_beq_iff : (k l : ℤ × Bytes) → (pair_beq k l ≡ true) ↔ (k ≡ l)
pair_beq_iff (a, s) (b, t) = ground (arith, eqb_ℤ_iff a b, bytes_beq_iff s t)

instance abbrev pub pair_eq : Eq (ℤ × Bytes)
pair_eq = record { beq = pair_beq; beq_iff = pair_beq_iff }

pub same_or_not : {K : Type 0} ⦃e : Eq K⦄ (j k : K) → (j ≡ k) ⊎ (j ≢ k)
same_or_not ⦃e⦄ j k = elim (Bool-cases (e.beq j k)) [
  | inl t ↦ inl ((e.beq_iff j k).0 t)
  | inr f ↦ inr (λ h. ground (arith, (e.beq_iff j k).1 h))
]
