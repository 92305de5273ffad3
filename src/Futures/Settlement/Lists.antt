-- ===== src/Futures/Settlement/Lists.antt =====
-- Lists of positions, as the pages of a settlement hold them (pkg/futures/settlement.go).
use mathlib.Core.List.{Permᴰ}
use little_cex.Prelude.{
  ◌+◌, ◌-◌, ◌∙◌, sym, subst, ap₂, Bool, ◌||◌, ℕ, zero, suc, ◌≤◌, ◌≡◌, inl, inr, refl, ap, ℤ, true,
  false, List, [], ◌∷◌, Bytes, eqb_ℤ, arith, Bool-cases, length, int_eq, bytes_eq, nat_eq, take,
  drop, pair_eq, eqb_ℤ_iff,
}
use little_cex.Futures.Position.{Position}
use little_cex.Futures.Positions.{is_open_in, filter}
use little_cex.Futures.Positions.Open.{without}

-- No position of the list is the user's.
abbrev pub Lacks : ℤ → List Position → Type 0
Lacks uid [] = Unit
Lacks uid (p ∷ ps) = (eqb_ℤ p.user_id uid ≡ false) × Lacks uid ps

pub Lacks-without : (uid v : ℤ) (l : List Position) → Lacks uid l → Lacks uid (without v l)
Lacks-without uid v [] h = tt
Lacks-without uid v (p ∷ ps) h = elim (Bool-cases (eqb_ℤ v p.user_id)) [
  | inl t ↦ rw t (Lacks-without uid v ps h.1)
  | inr t ↦ rw t (h.0, Lacks-without uid v ps h.1)
]

abbrev pub Distinct : List Position → Type 0
Distinct [] = Unit
Distinct (p ∷ ps) = Lacks p.user_id ps × Distinct ps

pub Distinct-without : (uid : ℤ) (l : List Position) → Distinct l → Distinct (without uid l)
Distinct-without uid [] h = tt
Distinct-without uid (p ∷ ps) h = elim (Bool-cases (eqb_ℤ uid p.user_id)) [
  | inl t ↦ rw t (Distinct-without uid ps h.1)
  | inr t ↦ rw t (Lacks-without p.user_id uid ps h.0, Distinct-without uid ps h.1)
]

without_absent : (uid : ℤ) (l : List Position) → Lacks uid l → without uid l ≡ l
without_absent uid [] h = refl
without_absent uid (p ∷ ps) h =
    ground (arith, without_absent uid ps h.1, eqb_ℤ_iff uid p.user_id, eqb_ℤ_iff p.user_id uid)

pub length-without : (uid : ℤ) (l : List Position) → length (without uid l) ≤ length l
length-without uid [] = omega arith
length-without uid (p ∷ ps) = ground (arith, length-without uid ps)

-- A user has one position at most.
pub length-without_one :
    (uid : ℤ) (l : List Position) → Distinct l → length l ≤ length (without uid l) + 1
length-without_one uid [] h = omega arith
length-without_one uid (p ∷ ps) h = elim (Bool-cases (eqb_ℤ uid p.user_id)) [
  | inl t ↦
      let e : uid ≡ p.user_id = (eqb_ℤ_iff uid p.user_id).0 t in
      rw t (
        omega
          (arith, ap length (without_absent uid ps (subst (λ (v : ℤ). Lacks v ps) (sym e) h.0))))
  | inr t ↦ rw t (omega (arith, length-without_one uid ps h.1))
]

-- Whether the list has a position of the user, and the list without the users of another.
abbrev pub has_user : ℤ → List Position → Bool
has_user uid [] = false
has_user uid (p ∷ ps) = eqb_ℤ p.user_id uid || has_user uid ps

abbrev pub without_all : List Position → List Position → List Position
without_all [] l = l
without_all (p ∷ ps) l = without_all ps (without p.user_id l)

abbrev pub Covered : List Position → List Position → Type 0
Covered ps [] = Unit
Covered ps (q ∷ l) = (has_user q.user_id ps ≡ true) × Covered ps l

Covered-without :
    (p : Position) (ps l : List Position) → Covered (p ∷ ps) l → Covered ps (without p.user_id l)
Covered-without p ps [] h = tt
Covered-without p ps (q ∷ l) h = elim (Bool-cases (eqb_ℤ p.user_id q.user_id)) [
  | inl t ↦ rw t (Covered-without p ps l h.1)
  | inr t ↦ rw t (ground arith, Covered-without p ps l h.1)
]

pub without_all-Covered : (ps l : List Position) → Covered ps l → without_all ps l ≡ []
without_all-Covered [] [] h = refl
without_all-Covered [] (q ∷ l) h = absurd (ground arith)
without_all-Covered (p ∷ ps) l h =
    without_all-Covered ps (without p.user_id l) (Covered-without p ps l h)

Covered-cons : (p : Position) (ps l : List Position) → Covered ps l → Covered (p ∷ ps) l
Covered-cons p ps [] h = tt
Covered-cons p ps (q ∷ l) h = (ground arith, Covered-cons p ps l h.1)

Covered-refl : (l : List Position) → Covered l l
Covered-refl [] = tt
Covered-refl (p ∷ ps) =
    (ground (arith, eqb_ℤ_iff p.user_id p.user_id), Covered-cons p ps ps (Covered-refl ps))

has_user-Permᴰ : {a b : List Position} (uid : ℤ) → Permᴰ a b → has_user uid a ≡ has_user uid b
has_user-Permᴰ uid Permᴰ.nil = refl
has_user-Permᴰ uid (Permᴰ.cons e d) =
    ap₂ (λ (p : Position) (t : Bool). eqb_ℤ p.user_id uid || t) e (has_user-Permᴰ uid d)
has_user-Permᴰ uid (Permᴰ.swap e f) = rw (e, f) (ground arith)
has_user-Permᴰ uid (Permᴰ.trans c d) = has_user-Permᴰ uid c ∙ has_user-Permᴰ uid d

same_users-Covered :
    (a b l : List Position)
    → ((uid : ℤ) → has_user uid a ≡ has_user uid b)
    → Covered b l
    → Covered a l
same_users-Covered a b [] e h = tt
same_users-Covered a b (q ∷ l) e h = (e q.user_id ∙ h.0, same_users-Covered a b l e h.1)

pub Covered-Permᴰ : {a b : List Position} → Permᴰ a b → Covered a b
Covered-Permᴰ {a} {b} d = same_users-Covered a b b (λ uid. has_user-Permᴰ uid d) (Covered-refl b)

pub length-Permᴰ : {a b : List Position} → Permᴰ a b → length a ≡ length b
length-Permᴰ Permᴰ.nil = refl
length-Permᴰ (Permᴰ.cons e d) = ap suc (length-Permᴰ d)
length-Permᴰ (Permᴰ.swap e f) = refl
length-Permᴰ (Permᴰ.trans c d) = length-Permᴰ c ∙ length-Permᴰ d

pub length-take_le : (n : ℕ) (l : List Position) → length (take n l) ≤ length l
length-take_le zero l = omega arith
length-take_le (suc n) [] = omega arith
length-take_le (suc n) (p ∷ ps) = omega (arith, length-take_le n ps)

pub length-take_full : (n : ℕ) (l : List Position) → n ≤ length l → length (take n l) ≡ n
length-take_full zero l h = refl
length-take_full (suc n) [] h = absurd (omega arith)
length-take_full (suc n) (p ∷ ps) h = omega (arith, length-take_full n ps (omega arith))

pub length-drop : (n : ℕ) (l : List Position) → length (drop n l) ≡ length l - n
length-drop zero l = omega arith
length-drop (suc n) [] = omega arith
length-drop (suc n) (p ∷ ps) = omega (arith, length-drop n ps)

-- Every position of the list is open and of the contract.
abbrev pub Listed : Bytes → List Position → Type 0
Listed symbol [] = Unit
Listed symbol (p ∷ ps) = (is_open_in symbol p ≡ true) × Listed symbol ps

pub Listed-filter :
    (symbol : Bytes) (l : List Position) → Listed symbol (filter (is_open_in symbol) l)
Listed-filter symbol [] = tt
Listed-filter symbol (p ∷ ps) = elim (Bool-cases (is_open_in symbol p)) [
  | inl t ↦ rw t (t, Listed-filter symbol ps)
  | inr t ↦ rw t (Listed-filter symbol ps)
]

pub Listed-take :
    (symbol : Bytes) (n : ℕ) (l : List Position) → Listed symbol l → Listed symbol (take n l)
Listed-take symbol zero l h = tt
Listed-take symbol (suc n) [] h = tt
Listed-take symbol (suc n) (p ∷ ps) h = (h.0, Listed-take symbol n ps h.1)

pub Listed-drop :
    (symbol : Bytes) (n : ℕ) (l : List Position) → Listed symbol l → Listed symbol (drop n l)
Listed-drop symbol zero l h = h
Listed-drop symbol (suc n) [] h = tt
Listed-drop symbol (suc n) (p ∷ ps) h = Listed-drop symbol n ps h.1

pub Listed-Permᴰ :
    (symbol : Bytes) {a b : List Position} → Permᴰ a b → Listed symbol b → Listed symbol a
Listed-Permᴰ symbol Permᴰ.nil h = tt
Listed-Permᴰ symbol (Permᴰ.cons e d) h = (ap (is_open_in symbol) e ∙ h.0, Listed-Permᴰ symbol d h.1)
Listed-Permᴰ symbol (Permᴰ.swap e f) h =
    (ap (is_open_in symbol) e ∙ h.1.0, (ap (is_open_in symbol) f ∙ h.0, h.1.1))
Listed-Permᴰ symbol (Permᴰ.trans c d) h = Listed-Permᴰ symbol c (Listed-Permᴰ symbol d h)

pub take_all : (n : ℕ) (l : List Position) → length l ≤ n → take n l ≡ l
take_all zero [] h = refl
take_all zero (p ∷ ps) h = absurd (omega arith)
take_all (suc n) [] h = refl
take_all (suc n) (p ∷ ps) h = ap (λ (t : List Position). p ∷ t) (take_all n ps (omega arith))

pub take_none : (n : ℕ) → take {A = Position} n [] ≡ []
take_none zero = refl
take_none (suc n) = refl

pub drop_none : (n : ℕ) → drop {A = Position} n [] ≡ []
drop_none zero = refl
drop_none (suc n) = refl
