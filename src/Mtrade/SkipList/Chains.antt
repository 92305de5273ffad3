-- ===== src/Mtrade/SkipList/Chains.antt =====
-- Searching and relinking one level of a skip list whose prices are in order
-- (findWithPath of pkg/mtrade/skiplist.go).
use little_cex.Prelude.{
  ◌≡◌, ◌⊎◌, inl, inr, ◌∙◌, refl, sym, ap, subst, ℤ, Bool, true, false, ◌||◌, Option, none, some,
  List, [], ◌∷◌, if◌then◌else◌, eqb_ℤ, arith, Bool-cases, int_eq, bytes_eq, nat_eq, pair_eq,
}
use little_cex.Prelude.{eqb_ℤ_iff}
use little_cex.Mtrade.SkipList.{less, linked, relink, walk, starts_with}

less_self : (asc : Bool) (a : ℤ) → less asc a a ≡ false
unfolding less
less_self asc a = ground arith

less_trans :
    (asc : Bool) (a b c : ℤ) → less asc a b ≡ true → less asc b c ≡ true → less asc a c ≡ true
unfolding less
less_trans asc a b c h k = ground arith

pub less_total :
    (asc : Bool) (a b : ℤ) → less asc a b ≡ false → eqb_ℤ a b ≡ false → less asc b a ≡ true
unfolding less
less_total asc a b h k = ground (arith, eqb_ℤ_iff a b)

pub less_ne : (asc : Bool) (a b : ℤ) → less asc a b ≡ true → eqb_ℤ a b ≡ false
unfolding less
less_ne asc a b h = ground (arith, eqb_ℤ_iff a b)

pub eqb_sym : (a b : ℤ) → eqb_ℤ a b ≡ eqb_ℤ b a
eqb_sym a b = ground (arith, eqb_ℤ_iff a b, eqb_ℤ_iff b a)

abbrev pub has : ℤ → List ℤ → Bool
has p [] = false
has p (q ∷ l) = eqb_ℤ p q || has p l

abbrev pub is_some : {A : Type 0} → Option A → Bool
is_some none = false
is_some (some _) = true

-- Every price comes behind `p`.
abbrev pub Behind : Bool → ℤ → List ℤ → Type 0
Behind asc p [] = Unit
Behind asc p (q ∷ l) = (less asc p q ≡ true) × Behind asc p l

abbrev pub IsSorted : Bool → List ℤ → Type 0
IsSorted asc [] = Unit
IsSorted asc (p ∷ l) = Behind asc p l × IsSorted asc l

Behind-has :
    (asc : Bool) (p c : ℤ) (l : List ℤ) → Behind asc p l → has c l ≡ true → less asc p c ≡ true
Behind-has asc p c [] b h = absurd (ground arith)
Behind-has asc p c (q ∷ l) b h = elim (Bool-cases (eqb_ℤ c q)) [
  | inl t ↦ let e : c ≡ q = (eqb_ℤ_iff c q).0 t in rw e b.0
  | inr t ↦ Behind-has asc p c l b.1 (ground arith)
]

pub Behind-trans :
    (asc : Bool) (p q : ℤ) (l : List ℤ) → less asc p q ≡ true → Behind asc q l → Behind asc p l
Behind-trans asc p q [] h b = tt
Behind-trans asc p q (r ∷ l) h b = (less_trans asc p q r h b.0, Behind-trans asc p q l h b.1)

pub Behind-lacks : (asc : Bool) (p : ℤ) (l : List ℤ) → Behind asc p l → has p l ≡ false
Behind-lacks asc p [] b = refl
Behind-lacks asc p (q ∷ l) b = ground (arith, less_ne asc p q b.0, Behind-lacks asc p l b.1)

-- The list with what comes at `p` and behind it replaced.
abbrev pub edit : Bool → ℤ → (List ℤ → List ℤ) → List ℤ → List ℤ
edit asc p f [] = f []
edit asc p f (q ∷ l) = if less asc q p then q ∷ edit asc p f l else f (q ∷ l)

abbrev pub beyond : Bool → ℤ → List ℤ → List ℤ
beyond asc p [] = []
beyond asc p (q ∷ l) = if less asc q p then beyond asc p l else q ∷ l

module _ (asc : Bool) (p : ℤ) where
  -- A walk ends at the node it began at, or at a later one.
  walk-has :
      (l : List ℤ) (r : ℤ) → (c : ℤ) × (walk asc p l (some r) ≡ some c) × (has c (r ∷ l) ≡ true)
  unfolding walk
  walk-has [] r = (r, refl, ground (arith, eqb_ℤ_iff r r))
  walk-has (q ∷ l) r = elim (Bool-cases (less asc q p)) [
    | inl t ↦ let (c, e, h) = walk-has l q in (c, rw t e, ground arith)
    | inr t ↦ (r, rw t refl, ground (arith, eqb_ℤ_iff r r))
  ]

  walk-less :
      (l : List ℤ) (r c : ℤ)
      → less asc r p ≡ true
      → walk asc p l (some r) ≡ some c
      → less asc c p ≡ true
  unfolding walk
  walk-less [] r c h e = ground arith
  walk-less (q ∷ l) r c h e = elim (Bool-cases (less asc q p)) [
    | inl t ↦ walk-less l q c t (rw t at e)
    | inr t ↦ let same : some r ≡ some c = rw t at e in ground arith
  ]

  -- From a node of the list, before the price, a walk ends where it does from the head.
  pub walk-linked :
      (l : List ℤ) (c : ℤ) (x : Option ℤ)
      → IsSorted asc l
      → has c l ≡ true
      → less asc c p ≡ true
      → walk asc p (linked (some c) l) (some c) ≡ walk asc p l x
  unfolding walk linked
  walk-linked [] c x s h b = absurd (ground arith)
  walk-linked (q ∷ l) c x s h b = elim (Bool-cases (eqb_ℤ c q)) [
    | inl t ↦
        let e : c ≡ q = (eqb_ℤ_iff c q).0 t in
        let first : less asc q p ≡ true = subst (λ (z : ℤ). less asc z p ≡ true) e b in
        rw (t, first) (ap (λ (z : ℤ). walk asc p l (some z)) e)
    | inr t ↦
        let later : has c l ≡ true = ground arith in
        let first : less asc q p ≡ true = less_trans asc q c p (Behind-has asc q c l s.0 later) b in
        rw (t, first) (walk-linked l c (some q) s.1 later b)
  ]

  relink_later :
      (f : List ℤ → List ℤ) (q c : ℤ) (l : List ℤ)
      → eqb_ℤ c q ≡ false
      → relink (some c) f (q ∷ l) ≡ q ∷ relink (some c) f l
  unfolding relink
  relink_later f q c l h = rw h refl

  relink-walk_from :
      (f : List ℤ → List ℤ) (q : ℤ) (l : List ℤ)
      → IsSorted asc (q ∷ l)
      → relink (walk asc p l (some q)) f (q ∷ l) ≡ q ∷ edit asc p f l
  unfolding relink walk
  relink-walk_from f q [] s = ground (arith, eqb_ℤ_iff q q)
  relink-walk_from f q (r ∷ l) s = elim (Bool-cases (less asc r p)) [
    | inl t ↦
        let (c, e, h) = walk-has l r in
        let other : eqb_ℤ c q ≡ false =
          eqb_sym c q ∙ less_ne asc q c (Behind-has asc q c (r ∷ l) s.0 h) in
        rw t (
          ap (λ (o : Option ℤ). relink o f (q ∷ r ∷ l)) e
          ∙ relink_later f q c (r ∷ l) other
          ∙ ap (λ (o : Option ℤ). q ∷ relink o f (r ∷ l)) (sym e)
          ∙ ap (λ (z : List ℤ). q ∷ z) (relink-walk_from f r l s.1))
    | inr t ↦ rw t (ground (arith, eqb_ℤ_iff q q))
  ]

  -- Where the walk from the head ends, what is linked is what comes at the price and behind it.
  pub relink-walk :
      (f : List ℤ → List ℤ) (l : List ℤ)
      → IsSorted asc l
      → relink (walk asc p l none) f l ≡ edit asc p f l
  unfolding relink walk
  relink-walk f [] s = refl
  relink-walk f (q ∷ l) s = elim (Bool-cases (less asc q p)) [
    | inl t ↦ rw t (relink-walk_from f q l s)
    | inr t ↦ rw t refl
  ]

  linked_later :
      (q c : ℤ) (l : List ℤ) → eqb_ℤ c q ≡ false → linked (some c) (q ∷ l) ≡ linked (some c) l
  unfolding linked
  linked_later q c l h = rw h refl

  linked-walk_from :
      (q : ℤ) (l : List ℤ)
      → IsSorted asc (q ∷ l)
      → linked (walk asc p l (some q)) (q ∷ l) ≡ beyond asc p l
  unfolding linked walk
  linked-walk_from q [] s = ground (arith, eqb_ℤ_iff q q)
  linked-walk_from q (r ∷ l) s = elim (Bool-cases (less asc r p)) [
    | inl t ↦
        let (c, e, h) = walk-has l r in
        let other : eqb_ℤ c q ≡ false =
          eqb_sym c q ∙ less_ne asc q c (Behind-has asc q c (r ∷ l) s.0 h) in
        rw t (
          ap (λ (o : Option ℤ). linked o (q ∷ r ∷ l)) e
          ∙ linked_later q c (r ∷ l) other
          ∙ ap (λ (o : Option ℤ). linked o (r ∷ l)) (sym e)
          ∙ linked-walk_from r l s.1)
    | inr t ↦ rw t (ground (arith, eqb_ℤ_iff q q))
  ]

  starts_with-beyond : (l : List ℤ) → IsSorted asc l → starts_with p (beyond asc p l) ≡ has p l
  starts_with-beyond [] s = refl
  starts_with-beyond (q ∷ l) s = elim (Bool-cases (less asc q p)) [
    | inl t ↦ rw (t, eqb_sym p q, less_ne asc q p t) (starts_with-beyond l s.1)
    | inr t ↦ elim (Bool-cases (eqb_ℤ q p)) [
      | inl same ↦ rw (t, eqb_sym p q, same) refl
      | inr other ↦
          rw
            (
              t,
              eqb_sym p q,
              other,
              Behind-lacks asc p l (Behind-trans asc p q l (less_total asc q p t other) s.0),
            )
            refl
    ]
  ]

  linked-walk : (l : List ℤ) → IsSorted asc l → linked (walk asc p l none) l ≡ beyond asc p l
  unfolding linked walk
  linked-walk [] s = refl
  linked-walk (q ∷ l) s = elim (Bool-cases (less asc q p)) [
    | inl t ↦ rw t (linked-walk_from q l s)
    | inr t ↦ rw t refl
  ]

  -- The search of one level finds the price exactly where the level has it.
  pub starts_with-linked :
      (l : List ℤ) → IsSorted asc l → starts_with p (linked (walk asc p l none) l) ≡ has p l
  starts_with-linked l s = ap (starts_with p) (linked-walk l s) ∙ starts_with-beyond l s

  -- Where a walk from the head ends: at the head, or at a node of the list before the price.
  pub walk-cases :
      (l : List ℤ)
      → (walk asc p l none ≡ none)
        ⊎ ((c : ℤ) × (walk asc p l none ≡ some c) × (has c l ≡ true) × (less asc c p ≡ true))
  unfolding walk
  walk-cases [] = inl refl
  walk-cases (q ∷ l) = elim (Bool-cases (less asc q p)) [
    | inl t ↦ let (c, e, h) = walk-has l q in inr (c, rw t e, h, walk-less l q c t e)
    | inr t ↦ inl (rw t refl)
  ]
