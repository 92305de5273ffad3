-- ===== src/Mtrade/SkipList/Edited.antt =====
-- What inserting a price into one level of a skip list, and deleting it there, do to the level
-- (Insert and Delete of pkg/mtrade/skiplist.go).
use little_cex.Prelude.{
  ◌≡◌, inl, inr, ◌∙◌, refl, ap, subst, ℤ, Bool, true, false, not, ◌&&◌, ◌||◌, List, [], ◌∷◌,
  if◌then◌else◌, eqb_ℤ, arith, Bool-cases, int_eq, bytes_eq, nat_eq, drop, pair_eq,
}
use little_cex.Prelude.{eqb_ℤ_iff}
use little_cex.Mtrade.SkipList.{less}
use little_cex.Mtrade.SkipList.Chains.{
  has, Behind, IsSorted, edit, less_total, less_ne, eqb_sym, Behind-trans, Behind-lacks,
}

module _ (asc : Bool) (p : ℤ) where
  abbrev pub inserted : List ℤ → List ℤ
  inserted l = edit asc p (λ r. p ∷ r) l

  -- The level without the price, where it has it.
  abbrev pub removed : List ℤ → List ℤ
  removed l = if has p l then edit asc p (drop 1) l else l

  pub has-inserted : (q : ℤ) (l : List ℤ) → has q (inserted l) ≡ (eqb_ℤ q p || has q l)
  has-inserted q [] = refl
  has-inserted q (r ∷ l) = elim (Bool-cases (less asc r p)) [
    | inl t ↦ rw (t, has-inserted q l) (ground arith)
    | inr t ↦ rw t refl
  ]

  Behind-inserted :
      (r : ℤ) (l : List ℤ) → less asc r p ≡ true → Behind asc r l → Behind asc r (inserted l)
  Behind-inserted r [] h b = (h, tt)
  Behind-inserted r (q ∷ l) h b = elim (Bool-cases (less asc q p)) [
    | inl t ↦ rw t (b.0, Behind-inserted r l h b.1)
    | inr t ↦ rw t (h, b)
  ]

  pub IsSorted-inserted :
      (l : List ℤ) → has p l ≡ false → IsSorted asc l → IsSorted asc (inserted l)
  IsSorted-inserted [] h s = (tt, tt)
  IsSorted-inserted (q ∷ l) h s =
      let other : eqb_ℤ q p ≡ false = eqb_sym q p ∙ ground arith in
      elim (Bool-cases (less asc q p)) [
        | inl t ↦ rw t (Behind-inserted q l t s.0, IsSorted-inserted l (ground arith) s.1)
        | inr t ↦
            let first : less asc p q ≡ true = less_total asc q p t other in
            rw t ((first, Behind-trans asc p q l first s.0), s)
      ]

  Behind-deleted : (r : ℤ) (l : List ℤ) → Behind asc r l → Behind asc r (edit asc p (drop 1) l)
  Behind-deleted r [] b = tt
  Behind-deleted r (q ∷ l) b = elim (Bool-cases (less asc q p)) [
    | inl t ↦ rw t (b.0, Behind-deleted r l b.1)
    | inr t ↦ rw t b.1
  ]

  IsSorted-deleted : (l : List ℤ) → IsSorted asc l → IsSorted asc (edit asc p (drop 1) l)
  IsSorted-deleted [] s = tt
  IsSorted-deleted (q ∷ l) s = elim (Bool-cases (less asc q p)) [
    | inl t ↦ rw t (Behind-deleted q l s.0, IsSorted-deleted l s.1)
    | inr t ↦ rw t s.1
  ]

  has-deleted :
      (q : ℤ) (l : List ℤ)
      → IsSorted asc l
      → has p l ≡ true
      → has q (edit asc p (drop 1) l) ≡ (not (eqb_ℤ q p) && has q l)
  has-deleted q [] s h = absurd (ground arith)
  has-deleted q (r ∷ l) s h = elim (Bool-cases (less asc r p)) [
    | inl t ↦
        let later : has p l ≡ true =
          let other : eqb_ℤ p r ≡ false = eqb_sym p r ∙ less_ne asc r p t in ground arith in
        rw (t, has-deleted q l s.1 later)
          (ground (arith, less_ne asc r p t, eqb_ℤ_iff q r, eqb_ℤ_iff q p, eqb_ℤ_iff r p))
    | inr t ↦ elim (Bool-cases (eqb_ℤ r p)) [
      | inl same ↦
          let e : r ≡ p = (eqb_ℤ_iff r p).0 same in
          rw (t, e) (gone q l (Behind-lacks asc p l (subst (λ (z : ℤ). Behind asc z l) e s.0)))
      | inr other ↦
          let lacks : has p l ≡ false =
            Behind-lacks asc p l (Behind-trans asc p r l (less_total asc r p t other) s.0) in
          absurd (let apart : eqb_ℤ p r ≡ false = eqb_sym p r ∙ other in ground arith)
    ]
  ]
    where
      gone :
          (q : ℤ) (l : List ℤ)
          → has p l ≡ false
          → has q l ≡ (not (eqb_ℤ q p) && (eqb_ℤ q p || has q l))
      gone q l lacks = elim (Bool-cases (eqb_ℤ q p)) [
        | inl t ↦ let e : q ≡ p = (eqb_ℤ_iff q p).0 t in rw t (ap (λ (z : ℤ). has z l) e ∙ lacks)
        | inr f ↦ rw f refl
      ]

  pub IsSorted-removed : (l : List ℤ) → IsSorted asc l → IsSorted asc (removed l)
  IsSorted-removed l s = elim (Bool-cases (has p l)) [
    | inl t ↦ rw t (IsSorted-deleted l s)
    | inr t ↦ rw t s
  ]

  pub has-removed :
      (q : ℤ) (l : List ℤ) → IsSorted asc l → has q (removed l) ≡ (not (eqb_ℤ q p) && has q l)
  has-removed q l s = elim (Bool-cases (has p l)) [
    | inl t ↦ rw t (has-deleted q l s t)
    | inr t ↦ rw t (elim (Bool-cases (eqb_ℤ q p)) [
      | inl same ↦ let e : q ≡ p = (eqb_ℤ_iff q p).0 same in rw same (ap (λ (z : ℤ). has z l) e ∙ t)
      | inr other ↦ rw other refl
    ])
  ]

  pub removed_nil : removed [] ≡ []
  removed_nil = refl
