-- ===== src/Mtrade/SkipList/Search.antt =====
-- What the search through the levels of a skip list finds, and what unlinking a node from them leaves
-- (findWithPath and Delete of pkg/mtrade/skiplist.go).
use little_cex.Prelude.{
  ℕ, zero, suc, ◌+◌, ◌-◌, ◌≤◌, ◌<◌, ◌≡◌, ◌≢◌, ◌⊎◌, inl, inr, ◌∙◌, refl, sym, ap, ap₂, ℤ, true,
  false, Option, none, List, [], arith, Bool-cases, int_eq, bytes_eq, nat_eq, lookup, drop, nat_beq,
  pair_eq, nat_beq_iff,
}
use little_cex.Mtrade.SkipList.{
  SkipList, walk, linked, relink, descend, set_at, find_with_path, starts_with, unlink_levels,
}
use little_cex.Mtrade.SkipList.Chains.{
  has, is_some, IsSorted, walk-linked, walk-cases, relink-walk, starts_with-linked,
}
use little_cex.Mtrade.SkipList.Edited.{removed}

-- A skip list: each level is in order, and holds the nodes of the level above; there are none from the
-- height on; the nodes are those with a price level.
pub record IsSkipList (s : SkipList) : Type 0 where
  pub sorted : (i : ℕ) → IsSorted s.ascending (s.chains i)
  pub nested : (i : ℕ) (p : ℤ) → has p (s.chains (i + 1)) ≡ true → has p (s.chains i) ≡ true
  pub above : (i : ℕ) → s.height ≤ i → s.chains i ≡ []
  pub known : (p : ℤ) → has p (s.chains 0) ≡ is_some (lookup p s.levels)

module _ (s : SkipList) (h : IsSkipList s) (p : ℤ) where
  -- Where the search of a level from the head ends.
  abbrev pub end_at : ℕ → Option ℤ
  end_at i = walk s.ascending p (s.chains i) none

  -- From where the search of the level above ended, it ends where it does from the head.
  walk_down :
      (i : ℕ)
      → walk s.ascending p (linked (end_at (i + 1)) (s.chains i)) (end_at (i + 1)) ≡ end_at i
  unfolding linked
  walk_down i = elim (walk-cases s.ascending p (s.chains (i + 1))) [
    | inl e ↦ rw e refl
    | inr (c, e, there, before) ↦
        rw e
          (walk-linked s.ascending p (s.chains i) c none (h.sorted i) (h.nested i c there) before)
  ]

  -- The path from a level down is right where it was right above.
  descend-path :
      (n : ℕ) (curr : Option ℤ) (path : ℕ → Option ℤ)
      → curr ≡ end_at n
      → ((i : ℕ) → n ≤ i → path i ≡ end_at i)
      → (i : ℕ) → (descend s.ascending p s.chains n curr path).1 i ≡ end_at i
  unfolding descend
  descend-path zero curr path c r i = r i (omega arith)
  descend-path (suc n) curr path c r i =
      descend-path n _ _ (step n curr c)
        (λ j k. elim (Bool-cases (nat_beq j n)) [
          | inl t ↦
              let e : j ≡ n = (nat_beq_iff j n).0 t in rw t (step n curr c ∙ ap end_at (sym e))
          | inr t ↦
              rw t (r j (let other : j ≢ n = (λ e. ground (arith, nat_beq_iff j n)) in omega arith))
        ])
        i
    where
      step :
          (m : ℕ) (o : Option ℤ)
          → o ≡ end_at (suc m)
          → walk s.ascending p (linked o (s.chains m)) o ≡ end_at m
      step m o e =
          ap (λ (x : Option ℤ). walk s.ascending p (linked x (s.chains m)) x)
            (e ∙ ap end_at {x = suc m} {y = m + 1} (omega arith))
          ∙ walk_down m

  descend-curr :
      (n : ℕ) (curr : Option ℤ) (path : ℕ → Option ℤ)
      → curr ≡ end_at n
      → (descend s.ascending p s.chains n curr path).0 ≡ end_at 0
  unfolding descend
  descend-curr zero curr path c = c
  descend-curr (suc n) curr path c = descend-curr n _ _ (
      ap (λ (x : Option ℤ). walk s.ascending p (linked x (s.chains n)) x)
        (c ∙ ap end_at {x = suc n} {y = n + 1} (omega arith))
      ∙ walk_down n)

  top : none ≡ end_at s.height
  unfolding walk
  top = rw (h.above s.height (omega arith)) refl

  -- The path has, at every level, the last node before the price, or the head.
  pub path-end_at : (i : ℕ) → (find_with_path p s).1 i ≡ end_at i
  unfolding find_with_path walk
  path-end_at i = descend-path s.height none (λ j. none) top (λ j k. rw (h.above j k) refl) i

  -- The search finds a price exactly where the lowest level has it.
  pub found-has : (find_with_path p s).0 ≡ has p (s.chains 0)
  unfolding find_with_path
  found-has =
      ap (λ (o : Option ℤ). starts_with p (linked o (s.chains 0)))
        (descend-curr s.height none (λ i. none) top)
      ∙ starts_with-linked s.ascending p (s.chains 0) (h.sorted 0)

  -- A price that a level lacks is in no level above it.
  pub lacks_above : (n i : ℕ) → has p (s.chains i) ≡ false → has p (s.chains (i + n)) ≡ false
  lacks_above zero i l = ap (λ (j : ℕ). has p (s.chains j)) {x = i + 0} {y = i} (omega arith) ∙ l
  lacks_above (suc n) i l =
      let below : has p (s.chains (i + n)) ≡ false = lacks_above n i l in
      ap (λ (j : ℕ). has p (s.chains j)) {x = i + suc n} {y = i + n + 1} (omega arith)
      ∙ elim (Bool-cases (has p (s.chains (i + n + 1)))) [
        | inl t ↦
            absurd (let up : has p (s.chains (i + n)) ≡ true = h.nested (i + n) p t in ground arith)
        | inr t ↦ t
      ]

  linked_at :
      (i : ℕ) (o : Option ℤ) (l : List ℤ)
      → o ≡ end_at i
      → l ≡ s.chains i
      → starts_with p (linked o l) ≡ has p (s.chains i)
  linked_at i o l e f =
      ap₂ (λ (x : Option ℤ) (y : List ℤ). starts_with p (linked x y)) e f
      ∙ starts_with-linked s.ascending p (s.chains i) (h.sorted i)

  relink_at :
      (i : ℕ) (o : Option ℤ) (l : List ℤ)
      → o ≡ end_at i
      → l ≡ s.chains i
      → has p (s.chains i) ≡ true
      → relink o (drop 1) l ≡ removed s.ascending p (s.chains i)
  relink_at i o l e f t =
      ap₂ (λ (x : Option ℤ) (y : List ℤ). relink x (drop 1) y) e f
      ∙ relink-walk s.ascending p (drop 1) (s.chains i) (h.sorted i)
      ∙ rw t refl

  lacks_from :
      (i j : ℕ)
      → i ≤ j
      → has p (s.chains i) ≡ false
      → removed s.ascending p (s.chains j) ≡ s.chains j
  lacks_from i j k l =
      let l' : has p (s.chains j) ≡ false =
        ap (λ (m : ℕ). has p (s.chains m)) {x = j} {y = i + (j - i)} (omega arith)
        ∙ lacks_above (j - i) i l in
      rw l' refl

  set_elsewhere :
      (i j : ℕ) (x : List ℤ) (chains : ℕ → List ℤ) → j ≢ i → set_at i x chains j ≡ chains j
  set_elsewhere i j x chains ne =
      let f : nat_beq j i ≡ false = ground (arith, nat_beq_iff j i, ne) in rw f refl

  set_here : (i : ℕ) (x : List ℤ) (chains : ℕ → List ℤ) → set_at i x chains i ≡ x
  set_here i x chains = let f : nat_beq i i ≡ true = (nat_beq_iff i i).1 refl in rw f refl

  -- The loop that unlinks a node takes the price out of the levels from `i` on, as many as it is given.
  pub unlink_levels-removed :
      (n i : ℕ) (path : ℕ → Option ℤ) (chains : ℕ → List ℤ)
      → ((j : ℕ) → path j ≡ end_at j)
      → ((j : ℕ) → i ≤ j → chains j ≡ s.chains j)
      → (j : ℕ)
      → ((i ≤ j) × (j < i + n)
          → unlink_levels n i p path chains j ≡ removed s.ascending p (s.chains j))
        × ((j < i) ⊎ (i + n ≤ j) → unlink_levels n i p path chains j ≡ chains j)
  unfolding unlink_levels
  unlink_levels-removed zero i path chains r c j = (λ k. absurd (omega arith), λ k. refl)
  unlink_levels-removed (suc n) i path chains r c j =
      let met = linked_at i (path i) (chains i) (r i) (c i (omega arith)) in
      elim (Bool-cases (has p (s.chains i))) [
        | inl t ↦
            let x = relink (path i) (drop 1) (chains i) in
            let rest =
              unlink_levels-removed n (i + 1) path (set_at i x chains) r
                (λ m k. set_elsewhere i m x chains (omega arith) ∙ c m (omega arith)) j in
            rw (met ∙ t) (
              λ k. elim (Bool-cases (nat_beq j i)) [
                | inl b ↦
                    let e : j ≡ i = (nat_beq_iff j i).0 b in
                    rest.1 (inl (omega arith))
                    ∙ ap (set_at i x chains) e
                    ∙ set_here i x chains
                    ∙ relink_at i (path i) (chains i) (r i) (c i (omega arith)) t
                    ∙ ap (λ (m : ℕ). removed s.ascending p (s.chains m)) (sym e)
                | inr b ↦
                    let ne : j ≢ i = (λ e. ground (arith, nat_beq_iff j i)) in
                    rest.0 (omega arith, omega arith)
              ],
              λ k.
                  rest.1 (elim k [ inl a ↦ inl (omega arith) | inr a ↦ inr (omega arith) ])
                  ∙ set_elsewhere i j x chains
                      (elim k [ inl a ↦ omega arith | inr a ↦ omega arith ]),
            )
        | inr t ↦ rw (met ∙ t) (λ k. c j k.0 ∙ sym (lacks_from i j k.0 t), λ k. refl)
      ]
