-- ===== src/Liquidation/Index/Placed.antt =====
-- Where updating a user puts it, and what the index of levels then says of it
-- (pkg/liquidation/index.go).
use little_cex.Prelude.{
  ℕ, ◌≡◌, ◌≢◌, ◌⊎◌, inl, inr, ◌∙◌, refl, sym, ap, subst, ℤ, Bool, true, false, Option, none, some,
  Map, arith, Bool-cases, Option-cases, int_eq, bytes_eq, nat_eq, lookup, insert, nat_beq, pair_eq,
  same_or_not, lookup-erase_ne, lookup-erase_self, lookup-insert_ne, lookup-insert_self,
  nat_beq_iff,
}
use little_cex.Liquidation.Index.{
  UserRiskData, RiskLevelIndex, RiskLevel, Threshold, CowMap, safe, warning, danger, critical,
  liquidate, level_to_index, calculate_risk_level, get_user, update_user, update_user_level_index,
  leave_others, enter_level, contains, batch_update, leave_level,
}

module _ {Ratio : Type 0} (reaches : Ratio → Threshold → Bool) where
  -- Whoever is in a level has that level in the index of levels. The converse need not hold: an entry
  -- of that index may be stale.
  abbrev pub IsIndexed : RiskLevelIndex Ratio → Type 0
  IsIndexed idx =
      (u : ℤ) (i : ℕ)
      → (lookup u (idx.levels i) ≡ none)
        ⊎ ((level : RiskLevel) × (lookup u idx.user_level_index ≡ some level)
            × (level_to_index level ≡ some i))

  -- What is stored of a user at a level.
  abbrev pub stored_as : UserRiskData Ratio → RiskLevel → Option (UserRiskData Ratio)
  stored_as d level = elim (level_to_index level) [
    | none ↦ none
    | some _ ↦ some (record d { level = level })
  ]

  abbrev pub stored : UserRiskData Ratio → Option (UserRiskData Ratio)
  stored d = stored_as d (calculate_risk_level reaches d.risk_ratio)

  -- The index of levels after an update: a level that is not stored leaves it as it was.
  abbrev pub index_as : UserRiskData Ratio → Map ℤ RiskLevel → RiskLevel → Map ℤ RiskLevel
  index_as d m level = elim (level_to_index level) [ none ↦ m | some _ ↦ insert d.user_id level m ]

  pub record IsPlaced (d : UserRiskData Ratio) (before after : RiskLevelIndex Ratio) : Type 0 where
    pub indexed : IsIndexed after
    pub placed : get_user reaches d.user_id after ≡ stored d
    pub index :
        after.user_level_index
        ≡ index_as d before.user_level_index (calculate_risk_level reaches d.risk_ratio)
    pub others : (v : ℤ) → v ≢ d.user_id → get_user reaches v after ≡ get_user reaches v before

  absent : (u : ℤ) (m : CowMap Ratio) → contains reaches u m ≡ false → lookup u m ≡ none
  unfolding contains
  absent u m h = ground arith

  left_self : (u : ℤ) (m : CowMap Ratio) → lookup u (leave_level reaches u false m) ≡ none
  unfolding leave_level batch_update
  left_self u m = elim (Bool-cases (contains reaches u m)) [
    | inl t ↦ rw t (lookup-erase_self u m)
    | inr t ↦ rw t (absent u m t)
  ]

  left_other :
      (u v : ℤ) (stays : Bool) (m : CowMap Ratio)
      → v ≢ u
      → lookup v (leave_level reaches u stays m) ≡ lookup v m
  unfolding leave_level batch_update
  left_other u v true m h = elim (Bool-cases (contains reaches u m)) [
    | inl t ↦ rw t refl
    | inr t ↦ rw t refl
  ]
  left_other u v false m h = elim (Bool-cases (contains reaches u m)) [
    | inl t ↦ rw t (lookup-erase_ne v u m h)
    | inr t ↦ rw t refl
  ]

  entered_index :
      (d : UserRiskData Ratio) (level : RiskLevel) (n : ℕ) (idx : RiskLevelIndex Ratio)
      → (enter_level reaches d level (some n) idx).user_level_index
        ≡ update_user_level_index reaches d.user_id level idx.user_level_index
  unfolding enter_level
  entered_index d level n idx = refl

  module _ (d : UserRiskData Ratio) (level : RiskLevel) (n : ℕ) (idx : RiskLevelIndex Ratio)
      (i : ℕ) where
    entered_self :
        nat_beq i n ≡ true
        → lookup d.user_id ((enter_level reaches d level (some n) idx).levels i)
          ≡ some (record d { level = level })
    unfolding enter_level batch_update
    entered_self t = rw t (lookup-insert_self d.user_id (record d { level = level }) (idx.levels i))

    entered_elsewhere :
        nat_beq i n ≡ false → (enter_level reaches d level (some n) idx).levels i ≡ idx.levels i
    unfolding enter_level
    entered_elsewhere t = rw t refl

    entered_other :
        (v : ℤ)
        → v ≢ d.user_id
        → lookup v ((enter_level reaches d level (some n) idx).levels i) ≡ lookup v (idx.levels i)
    unfolding enter_level batch_update
    entered_other v h = elim (Bool-cases (nat_beq i n)) [
      | inl t ↦ rw t (lookup-insert_ne v d.user_id (record d { level = level }) (idx.levels i) h)
      | inr t ↦ rw t refl
    ]

  found_at :
      (u : ℤ) (idx : RiskLevelIndex Ratio) (level : RiskLevel) (i : ℕ)
      → lookup u idx.user_level_index ≡ some level
      → level_to_index level ≡ some i
      → get_user reaches u idx ≡ lookup u (idx.levels i)
  unfolding get_user
  found_at u idx level i e f = rw (e, f, get_user) refl

  found_same :
      (v : ℤ) (a b : RiskLevelIndex Ratio)
      → lookup v b.user_level_index ≡ lookup v a.user_level_index
      → ((i : ℕ) → lookup v (b.levels i) ≡ lookup v (a.levels i))
      → get_user reaches v b ≡ get_user reaches v a
  unfolding get_user
  found_same v a b e f = elim (Option-cases (lookup v a.user_level_index)) [
    | inl n ↦ rw (e, n, get_user) refl
    | inr (level, n) ↦ elim (Option-cases (level_to_index level)) [
      | inl m ↦ rw (e, n, m, get_user) refl
      | inr (i, m) ↦ rw (e, n, m, get_user) (f i)
    ]
  ]

  found_nowhere :
      (u : ℤ) (idx : RiskLevelIndex Ratio)
      → ((i : ℕ) → lookup u (idx.levels i) ≡ none)
      → get_user reaches u idx ≡ none
  unfolding get_user
  found_nowhere u idx f = elim (Option-cases (lookup u idx.user_level_index)) [
    | inl n ↦ rw (n, get_user) refl
    | inr (level, n) ↦ elim (Option-cases (level_to_index level)) [
      | inl m ↦ rw (n, m, get_user) refl
      | inr (i, m) ↦ rw (n, m, get_user) (f i)
    ]
  ]

  -- A user whose new level is not stored.
  leave-IsPlaced :
      (d : UserRiskData Ratio) (idx : RiskLevelIndex Ratio)
      → stored d ≡ none
      → index_as d idx.user_level_index (calculate_risk_level reaches d.risk_ratio)
        ≡ idx.user_level_index
      → IsIndexed idx
      → IsPlaced d idx (leave_others reaches d.user_id none idx)
  unfolding leave_others
  leave-IsPlaced d idx none_stored as_before h = record {
    index = sym as_before;
    indexed = λ v i. elim (same_or_not v d.user_id) [
      | inl same ↦ inl (rw same (left_self d.user_id (idx.levels i)))
      | inr other ↦ rw (left_other d.user_id v false (idx.levels i) other) (h v i)
    ];
    placed = found_nowhere d.user_id _ (λ i. left_self d.user_id (idx.levels i)) ∙ sym none_stored;
    others =
        λ v other. found_same v idx _ refl (λ i. left_other d.user_id v false (idx.levels i) other);
  }

  -- A user whose new level is stored.
  enter-IsPlaced :
      (d : UserRiskData Ratio) (idx : RiskLevelIndex Ratio) (level : RiskLevel) (n : ℕ)
      → level_to_index level ≡ some n
      → ((m : Map ℤ RiskLevel)
          → update_user_level_index reaches d.user_id level m ≡ insert d.user_id level m)
      → stored d ≡ some (record d { level = level })
      → index_as d idx.user_level_index (calculate_risk_level reaches d.risk_ratio)
        ≡ insert d.user_id level idx.user_level_index
      → IsIndexed idx
      → IsPlaced d idx
          (enter_level reaches d level (some n) (leave_others reaches d.user_id (some n) idx))
  unfolding leave_others
  enter-IsPlaced d idx level n at put here new_index h = record {
    index = entered_index d level n left ∙ put idx.user_level_index ∙ sym new_index;
    indexed = λ v i. elim (same_or_not v d.user_id) [
      | inl same ↦ rw same (at_level i (Bool-cases (nat_beq i n)))
      | inr other ↦
          subst
            (λ (o : Option (UserRiskData Ratio)).
              (o ≡ none)
              ⊎ ((l : RiskLevel) × (lookup v after.user_level_index ≡ some l)
                  × (level_to_index l ≡ some i)))
            (sym (kept v i other)) (rw (kept_level v other) (h v i))
    ];
    placed =
        found_at d.user_id after level n (own_level) at
        ∙ entered_self d level n left n ((nat_beq_iff n n).1 refl)
        ∙ sym here;
    others = λ v other. found_same v idx after (kept_level v other) (λ i. kept v i other);
  }
    where
      left : RiskLevelIndex Ratio
      left = leave_others reaches d.user_id (some n) idx

      after : RiskLevelIndex Ratio
      after = enter_level reaches d level (some n) left

      own_level : lookup d.user_id after.user_level_index ≡ some level
      own_level =
          ap (lookup d.user_id) (entered_index d level n left ∙ put idx.user_level_index)
          ∙ lookup-insert_self d.user_id level idx.user_level_index

      kept_level :
          (v : ℤ) → v ≢ d.user_id → lookup v after.user_level_index ≡ lookup v idx.user_level_index
      kept_level v other =
          ap (lookup v) (entered_index d level n left ∙ put idx.user_level_index)
          ∙ lookup-insert_ne v d.user_id level idx.user_level_index other

      kept : (v : ℤ) (i : ℕ) → v ≢ d.user_id → lookup v (after.levels i) ≡ lookup v (idx.levels i)
      kept v i other =
          entered_other d level n left i v other
          ∙ left_other d.user_id v (nat_beq i n) (idx.levels i) other

      at_level :
          (i : ℕ)
          → (nat_beq i n ≡ true) ⊎ (nat_beq i n ≡ false)
          → (lookup d.user_id (after.levels i) ≡ none)
            ⊎ ((l : RiskLevel) × (lookup d.user_id after.user_level_index ≡ some l)
                × (level_to_index l ≡ some i))
      at_level i (inl t) =
          inr (level, own_level, at ∙ ap (λ (m : ℕ). some m) (sym ((nat_beq_iff i n).0 t)))
      at_level i (inr t) = inl (
          ap (lookup d.user_id) (entered_elsewhere d level n left i t)
          ∙ ap (λ (b : Bool). lookup d.user_id (leave_level reaches d.user_id b (idx.levels i))) t
          ∙ left_self d.user_id (idx.levels i))

  -- Updating a user in an index whose levels hold only users that the index of levels has at that level:
  -- that still holds, the user is found with the new data and the level of its ratio, or not at all
  -- where that is safe or to be liquidated, and what is found of any other user is as before. The index
  -- of levels gets the new level, and keeps its old entry where the new level is not stored.
  pub update_user-IsPlaced :
      (d : UserRiskData Ratio) (idx : RiskLevelIndex Ratio)
      → IsIndexed idx
      → IsPlaced d idx (update_user reaches d idx)
  unfolding update_user enter_level level_to_index update_user_level_index
  update_user-IsPlaced d idx h = go (calculate_risk_level reaches d.risk_ratio) refl
    where
      go :
          (level : RiskLevel)
          → calculate_risk_level reaches d.risk_ratio ≡ level
          → IsPlaced d idx (
              enter_level reaches d level
                (level_to_index level)
                (leave_others reaches d.user_id (level_to_index level) idx))
      go safe e =
          leave-IsPlaced d idx (ap (stored_as d) e) (ap (index_as d idx.user_level_index) e) h
      go warning e =
          enter-IsPlaced d idx warning 0 refl (λ m. refl) (ap (stored_as d) e)
            (ap (index_as d idx.user_level_index) e) h
      go danger e =
          enter-IsPlaced d idx danger 1 refl (λ m. refl) (ap (stored_as d) e)
            (ap (index_as d idx.user_level_index) e) h
      go critical e =
          enter-IsPlaced d idx critical 2 refl (λ m. refl) (ap (stored_as d) e)
            (ap (index_as d idx.user_level_index) e) h
      go liquidate e =
          leave-IsPlaced d idx (ap (stored_as d) e) (ap (index_as d idx.user_level_index) e) h
