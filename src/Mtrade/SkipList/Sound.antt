-- ===== src/Mtrade/SkipList/Sound.antt =====
-- The operations of a skip list keep it one, and what its nodes are afterwards (Insert and Delete of
-- pkg/mtrade/skiplist.go).
use little_cex.Prelude.{
  ℕ, zero, suc, ◌+◌, ◌≤◌, ◌≡◌, ◌≢◌, inl, inr, ◌∙◌, refl, sym, ap, subst, ℤ, Bool, true, false, not,
  ◌&&◌, ◌||◌, Option, none, some, List, [], ◌∷◌, if◌then◌else◌, ltb, eqb_ℤ, arith, Bool-cases,
  int_eq, bytes_eq, nat_eq, lookup, nat_beq, pair_eq, nat_beq_iff, eqb_ℤ_iff,
}
use little_cex.Prelude.{lookup-insert}
use little_cex.Mtrade.Level.{RingPriceLevel, new_ring_price_level}
use little_cex.Mtrade.SkipList.Levels.{lookup-erase, lookup_empty}
use little_cex.Mtrade.SkipList.{
  SkipList, new_skip_list, climb, random_height, find_with_path, insert_node, insert_price,
  delete_node, delete_price, lowered, put_level, is_nil, relink,
}
use little_cex.Mtrade.SkipList.Chains.{has, is_some, IsSorted, relink-walk}
use little_cex.Mtrade.SkipList.Edited.{
  inserted, removed, has-inserted, IsSorted-inserted, has-removed, IsSorted-removed,
}
use little_cex.Mtrade.SkipList.Search.{
  IsSkipList, path-end_at, found-has, lacks_above, unlink_levels-removed,
}

pub new_skip_list-IsSkipList :
    (asc : Bool) (draws : ℕ → Bool) → IsSkipList (new_skip_list asc draws)
unfolding new_skip_list
new_skip_list-IsSkipList asc draws = record {
  sorted = λ i. tt;
  nested = λ i p t. t;
  above = λ i k. refl;
  known = λ p. ap is_some (sym (lookup_empty p));
}

climb_positive : (n h : ℕ) (draws : ℕ → Bool) → 1 ≤ h → 1 ≤ (climb n h draws).0
climb_positive zero h draws k = k
climb_positive (suc n) h draws k =
    let later = climb_positive n (h + 1) (λ m. draws (m + 1)) (omega arith) in
    elim (Bool-cases (draws 0)) [ inl t ↦ rw t later | inr t ↦ rw t k ]

-- Lowering the height leaves out only levels that have no node.
lowered_nil :
    (n : ℕ) (chains : ℕ → List ℤ)
    → ((i : ℕ) → n ≤ i → chains i ≡ [])
    → (i : ℕ) → lowered n chains ≤ i
    → chains i ≡ []
unfolding lowered
lowered_nil zero chains e i k = e i k
lowered_nil (suc n) chains e i k = elim (Bool-cases (ltb 0 n && is_nil (chains n))) [
  | inl t ↦
      lowered_nil n chains
        (λ j m. elim (Bool-cases (nat_beq j n)) [
          | inl b ↦
              let same : j ≡ n = (nat_beq_iff j n).0 b in
              ap chains same ∙ nil (chains n) (ground arith)
          | inr b ↦ let ne : j ≢ n = (λ e. ground (arith, nat_beq_iff j n)) in e j (omega arith)
        ])
        i (rw t at k)
  | inr t ↦ e i (rw t at k)
]
  where
    nil : (l : List ℤ) → is_nil l ≡ true → l ≡ []
    nil [] h = refl
    nil (x ∷ l) h = absurd (ground arith)

module _ (s : SkipList) (h : IsSkipList s) (p : ℤ) where
  pub lacks_all : has p (s.chains 0) ≡ false → (i : ℕ) → has p (s.chains i) ≡ false
  lacks_all l i =
      ap (λ (m : ℕ). has p (s.chains m)) {x = i} {y = 0 + i} (omega arith) ∙ lacks_above s h p i 0 l

  module _ (height : ℕ) (draws : ℕ → Bool) where
    abbrev pub grown : SkipList
    grown = insert_node p (find_with_path p s).1 (height, draws) s

    chains-insert_node :
        (i : ℕ)
        → grown.chains i
          ≡ (if ltb i height then inserted s.ascending p (s.chains i) else s.chains i)
    unfolding insert_node
    chains-insert_node i =
        ap (λ (l : List ℤ). if ltb i height then l else s.chains i)
          (ap (λ (o : Option ℤ). relink o (λ l. p ∷ l) (s.chains i)) (path-end_at s h p i)
            ∙ relink-walk s.ascending p (λ l. p ∷ l) (s.chains i) (h.sorted i))

    has-insert_node :
        (q : ℤ) (i : ℕ)
        → has q (grown.chains i) ≡ ((ltb i height && eqb_ℤ q p) || has q (s.chains i))
    has-insert_node q i = ap (has q) (chains-insert_node i) ∙ elim (Bool-cases (ltb i height)) [
      | inl t ↦ rw t (has-inserted s.ascending p q (s.chains i))
      | inr t ↦ rw t refl
    ]

    pub insert_node-IsSkipList : 1 ≤ height → has p (s.chains 0) ≡ false → IsSkipList grown
    unfolding insert_node
    insert_node-IsSkipList k l = record {
      sorted = λ i.
          subst (IsSorted s.ascending) (sym (chains-insert_node i))
            (elim (Bool-cases (ltb i height)) [
              | inl t ↦
                  rw t (IsSorted-inserted s.ascending p (s.chains i) (lacks_all l i) (h.sorted i))
              | inr t ↦ rw t (h.sorted i)
            ]);
      nested = λ i q t. has-insert_node q i ∙ held q i (sym (has-insert_node q (i + 1)) ∙ t);
      above = λ i m.
          chains-insert_node i
          ∙ (let t : ltb i height ≡ false = ground arith in rw t (h.above i (ground arith)));
      known = λ q.
          has-insert_node q 0
          ∙ (let t : ltb 0 height ≡ true = ground arith in
              rw (t, lookup-insert q p (new_ring_price_level p) s.levels, h.known q) (either q));
    }
      where
        held :
            (q : ℤ) (i : ℕ)
            → ((ltb (i + 1) height && eqb_ℤ q p) || has q (s.chains (i + 1))) ≡ true
            → ((ltb i height && eqb_ℤ q p) || has q (s.chains i)) ≡ true
        held q i t = elim (Bool-cases (has q (s.chains (i + 1)))) [
          | inl u ↦ let v : has q (s.chains i) ≡ true = h.nested i q u in ground arith
          | inr u ↦ ground arith
        ]

        either :
            (q : ℤ)
            → (eqb_ℤ q p || is_some (lookup q s.levels))
              ≡ is_some (if eqb_ℤ q p then some (new_ring_price_level p) else lookup q s.levels)
        either q = elim (Bool-cases (eqb_ℤ q p)) [ inl t ↦ rw t refl | inr t ↦ rw t refl ]

  pub insert_price-IsSkipList : IsSkipList (insert_price p s)
  unfolding insert_price random_height
  insert_price-IsSkipList = elim (Bool-cases (find_with_path p s).0) [
    | inl t ↦ rw t h
    | inr t ↦ rw t (
        insert_node-IsSkipList _ _ (climb_positive 31 1 s.draws (omega arith))
          (sym (found-has s h p) ∙ t))
  ]

  abbrev pub cut : SkipList
  cut = delete_node p (find_with_path p s).1 s

  chains-delete_node : (i : ℕ) → cut.chains i ≡ removed s.ascending p (s.chains i)
  unfolding delete_node
  chains-delete_node i =
      let left =
        unlink_levels-removed s h p s.height 0 (find_with_path p s).1 s.chains (path-end_at s h p)
          (λ j k. refl) i in
      elim (Bool-cases (ltb i s.height)) [
        | inl t ↦ left.0 (omega arith, ground arith)
        | inr t ↦
            let e : s.chains i ≡ [] = h.above i (ground arith) in
            left.1 (inr (ground arith)) ∙ e ∙ ap (removed s.ascending p) (sym e)
      ]

  has-delete_node : (q : ℤ) (i : ℕ) → has q (cut.chains i) ≡ (not (eqb_ℤ q p) && has q (s.chains i))
  has-delete_node q i =
      ap (has q) (chains-delete_node i) ∙ has-removed s.ascending p q (s.chains i) (h.sorted i)

  pub delete_node-IsSkipList : IsSkipList cut
  unfolding delete_node
  delete_node-IsSkipList = record {
    sorted = λ i.
        subst (IsSorted s.ascending) (sym (chains-delete_node i))
          (IsSorted-removed s.ascending p (s.chains i) (h.sorted i));
    nested = λ i q t. has-delete_node q i ∙ held q i (sym (has-delete_node q (i + 1)) ∙ t);
    above =
        lowered_nil s.height _
          (λ i k. chains-delete_node i ∙ ap (removed s.ascending p) (h.above i k));
    known = λ q. has-delete_node q 0 ∙ rw (lookup-erase q p s.levels, h.known q) (neither q);
  }
    where
      held :
          (q : ℤ) (i : ℕ)
          → (not (eqb_ℤ q p) && has q (s.chains (i + 1))) ≡ true
          → (not (eqb_ℤ q p) && has q (s.chains i)) ≡ true
      held q i t = let v : has q (s.chains i) ≡ true = h.nested i q (ground arith) in ground arith

      neither :
          (q : ℤ)
          → (not (eqb_ℤ q p) && is_some (lookup q s.levels))
            ≡ is_some (if eqb_ℤ q p then none else lookup q s.levels)
      neither q = elim (Bool-cases (eqb_ℤ q p)) [ inl t ↦ rw t refl | inr t ↦ rw t refl ]

  pub delete_price-IsSkipList : IsSkipList (delete_price p s)
  unfolding delete_price
  delete_price-IsSkipList = elim (Bool-cases (find_with_path p s).0) [
    | inl t ↦ rw t delete_node-IsSkipList
    | inr t ↦ rw t h
  ]

  pub there-lookup : (find_with_path p s).0 ≡ is_some (lookup p s.levels)
  there-lookup = found-has s h p ∙ h.known p

  pub put_level-IsSkipList : (level : RingPriceLevel) → IsSkipList (put_level p level s)
  unfolding put_level
  put_level-IsSkipList level = elim (Bool-cases (find_with_path p s).0) [
    | inl t ↦ rw t (record {
      sorted = h.sorted;
      nested = h.nested;
      above = h.above;
      known = λ q. h.known q ∙ rw (lookup-insert q p level s.levels) (put q (sym there-lookup ∙ t));
    })
    | inr t ↦ rw t h
  ]
    where
      put :
          (q : ℤ)
          → is_some (lookup p s.levels) ≡ true
          → is_some (lookup q s.levels)
            ≡ is_some (if eqb_ℤ q p then some level else lookup q s.levels)
      put q t = elim (Bool-cases (eqb_ℤ q p)) [
        | inl b ↦
            let e : q ≡ p = (eqb_ℤ_iff q p).0 b in
            rw b (ap (λ (z : ℤ). is_some (lookup z s.levels)) e ∙ t)
        | inr b ↦ rw b refl
      ]
