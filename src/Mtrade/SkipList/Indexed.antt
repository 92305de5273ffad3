-- ===== src/Mtrade/SkipList/Indexed.antt =====
-- The skip list as the price index of a book (pkg/mtrade/skiplist.go, the interface in
-- pkg/mtrade/price_index.go).
use little_cex.Prelude.{
  ℕ, ◌≡◌, ◌≢◌, ◌⊎◌, inl, inr, ◌∙◌, refl, sym, ap, ap₂, ℤ, Bool, true, false, Option, none, some,
  List, [], ◌∷◌, if◌then◌else◌, eqb_ℤ, arith, Bool-cases, int_eq, bytes_eq, nat_eq, lookup, pair_eq,
  eqb_ℤ_iff,
}
use little_cex.Prelude.{lookup-insert}
use little_cex.Mtrade.Level.{RingPriceLevel, new_ring_price_level}
use little_cex.Mtrade.Index.{PriceIndex, or_new_level}
use little_cex.Mtrade.SkipList.Levels.{lookup-erase, lookup_empty}
use little_cex.Mtrade.SkipList.{
  SkipList, new_skip_list, find, insert_node, insert_price, delete_node, delete_price, put_level,
  first_node, first_of_chain,
}
use little_cex.Mtrade.SkipList.Chains.{has, is_some}
use little_cex.Mtrade.SkipList.Search.{IsSkipList}
use little_cex.Mtrade.SkipList.Sound.{
  new_skip_list-IsSkipList, insert_price-IsSkipList, delete_price-IsSkipList, put_level-IsSkipList,
  there-lookup,
}

is_some-cases :
    {A : Type 0} (o : Option A)
    → ((is_some o ≡ true) × ((x : A) × (o ≡ some x))) ⊎ ((is_some o ≡ false) × (o ≡ none))
is_some-cases none = inr (refl, refl)
is_some-cases (some x) = inl (refl, (x, refl))

module _ (s : SkipList) (h : IsSkipList s) (p : ℤ) where
  -- Finding a price leads to its level.
  pub find-lookup : find p s ≡ lookup p s.levels
  unfolding find
  find-lookup = elim (is_some-cases (lookup p s.levels)) [
    | inl (t, _) ↦ rw (there-lookup s h p ∙ t) refl
    | inr (t, e) ↦ rw (there-lookup s h p ∙ t) (sym e)
  ]

  levels-insert_price :
      (q : ℤ)
      → lookup q (insert_price p s).levels
        ≡ (if eqb_ℤ q p then some (or_new_level p (lookup p s.levels)) else lookup q s.levels)
  unfolding insert_price insert_node
  levels-insert_price q = elim (is_some-cases (lookup p s.levels)) [
    | inl (t, (x, e)) ↦ rw (there-lookup s h p ∙ t) (elim (Bool-cases (eqb_ℤ q p)) [
      | inl b ↦
          let same : q ≡ p = (eqb_ℤ_iff q p).0 b in
          rw (b, e) (ap (λ (z : ℤ). lookup z s.levels) same ∙ e)
      | inr b ↦ rw b refl
    ])
    | inr (t, e) ↦
        rw (there-lookup s h p ∙ t, e) (lookup-insert q p (new_ring_price_level p) s.levels)
  ]

  levels-delete_price :
      (q : ℤ) → lookup q (delete_price p s).levels ≡ (if eqb_ℤ q p then none else lookup q s.levels)
  unfolding delete_price delete_node
  levels-delete_price q = elim (is_some-cases (lookup p s.levels)) [
    | inl (t, _) ↦ rw (there-lookup s h p ∙ t) (lookup-erase q p s.levels)
    | inr (t, e) ↦ rw (there-lookup s h p ∙ t) (elim (Bool-cases (eqb_ℤ q p)) [
      | inl b ↦
          let same : q ≡ p = (eqb_ℤ_iff q p).0 b in
          rw b (ap (λ (z : ℤ). lookup z s.levels) same ∙ e)
      | inr b ↦ rw b refl
    ])
  ]

  levels-put_level :
      (q : ℤ) (level level' : RingPriceLevel)
      → lookup p s.levels ≡ some level
      → lookup q (put_level p level' s).levels
        ≡ (if eqb_ℤ q p then some level' else lookup q s.levels)
  unfolding put_level
  levels-put_level q level level' e =
      rw (there-lookup s h p ∙ ap is_some e) (lookup-insert q p level' s.levels)

  pub find-first_node : first_node s ≡ some p → find p s ≢ none
  unfolding first_node
  find-first_node e = λ n. absurd (
      let t : has p (s.chains 0) ≡ true = first (s.chains 0) e in
      let u : is_some (lookup p s.levels) ≡ false = ap is_some (sym find-lookup ∙ n) in
      let k : has p (s.chains 0) ≡ is_some (lookup p s.levels) = h.known p in ground arith)
    where
      first : (l : List ℤ) → first_of_chain l ≡ some p → has p l ≡ true
      first [] e = absurd (ground arith)
      first (q ∷ l) e = ground (arith, eqb_ℤ_iff p q)

module _ (s : SkipList) (h : IsSkipList s) (p q : ℤ) where
  pub find-insert_price :
      find p (insert_price q s) ≡ (if eqb_ℤ p q then some (or_new_level q (find q s)) else find p s)
  find-insert_price =
      find-lookup _ (insert_price-IsSkipList s h q) p
      ∙ levels-insert_price s h q p
      ∙ ap₂ (λ (x y : Option RingPriceLevel). if eqb_ℤ p q then some (or_new_level q x) else y)
          (sym (find-lookup s h q)) (sym (find-lookup s h p))

  pub find-put_level :
      (level level' : RingPriceLevel)
      → find q s ≡ some level
      → find p (put_level q level' s) ≡ (if eqb_ℤ p q then some level' else find p s)
  find-put_level level level' e =
      find-lookup _ (put_level-IsSkipList s h q level') p
      ∙ levels-put_level s h q p level level' (sym (find-lookup s h q) ∙ e)
      ∙ ap (λ (y : Option RingPriceLevel). if eqb_ℤ p q then some level' else y)
          (sym (find-lookup s h p))

  pub find-delete_price : find p (delete_price q s) ≡ (if eqb_ℤ p q then none else find p s)
  find-delete_price =
      find-lookup _ (delete_price-IsSkipList s h q) p
      ∙ levels-delete_price s h q p
      ∙ ap (λ (y : Option RingPriceLevel). if eqb_ℤ p q then none else y) (sym (find-lookup s h p))

pub find-new_skip_list :
    (asc : Bool) (draws : ℕ → Bool) (p : ℤ) → find p (new_skip_list asc draws) ≡ none
unfolding new_skip_list
find-new_skip_list asc draws p =
    find-lookup _ (new_skip_list-IsSkipList asc draws) p ∙ lookup_empty p

-- A skip list whose levels are in order.
pub record Sound : Type 0 where
  pub list : SkipList
  pub is_skip_list : IsSkipList list

-- The skip list keeps the laws of a price index, whatever its random numbers are.
abbrev pub skip_list_index : (ℕ → Bool) → PriceIndex
skip_list_index draws = record {
  Index = Sound;
  empty = λ asc. record {
    list = new_skip_list asc draws;
    is_skip_list = new_skip_list-IsSkipList asc draws;
  };
  find = λ p i. find p i.list;
  insert = λ p i. record {
    list = insert_price p i.list;
    is_skip_list = insert_price-IsSkipList i.list i.is_skip_list p;
  };
  put = λ p level i. record {
    list = put_level p level i.list;
    is_skip_list = put_level-IsSkipList i.list i.is_skip_list p level;
  };
  delete = λ p i. record {
    list = delete_price p i.list;
    is_skip_list = delete_price-IsSkipList i.list i.is_skip_list p;
  };
  first = λ i. first_node i.list;
  len = λ i. i.list.count;
  find-empty = λ asc p. find-new_skip_list asc draws p;
  find-insert = λ p q i. find-insert_price i.list i.is_skip_list p q;
  find-put = λ p q level level' i e. find-put_level i.list i.is_skip_list p q level level' e;
  find-delete = λ p q i. find-delete_price i.list i.is_skip_list p q;
  find-first = λ p i. find-first_node i.list i.is_skip_list p;
}
