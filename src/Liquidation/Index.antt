-- ===== src/Liquidation/Index.antt =====
-- The index of users by risk level (pkg/liquidation/index.go and pkg/liquidation/model.go). A
-- copy-on-write map is the map that its pointer stands for at a time. The risk ratio is a float64, and
-- its comparison with a threshold is a parameter.
pub mod Placed
use little_cex.Prelude.{
  ℕ, ◌+◌, ℤ, Bool, true, false, ◌||◌, Option, none, some, List, [], ◌∷◌, ◌++◌, Bytes, Map,
  if◌then◌else◌, eqb_ℤ, length, int_eq, bytes_eq, nat_eq, lookup, insert, erase, nat_beq, pair_eq,
}

pub data RiskLevel : Type 0 where
  safe warning danger critical liquidate : RiskLevel

pub data Threshold : Type 0 where
  threshold_warning threshold_danger threshold_critical threshold_liquidate : Threshold

-- The prices of liquidation are left aside.
pub record UserRiskData (Ratio : Type 0) : Type 0 where
  pub user_id : ℤ
  pub risk_ratio : Ratio
  pub equity : Ratio
  pub maint_margin : Ratio
  pub level : RiskLevel
  pub updated_at : ℤ
  pub symbols : List Bytes

abbrev pub CowMap : Type 0 → Type 0
CowMap Ratio = Map ℤ (UserRiskData Ratio)

pub record RiskLevelIndex (Ratio : Type 0) : Type 0 where
  -- the three levels: warning, danger and critical
  pub levels : ℕ → CowMap Ratio
  pub symbol_to_users : Map Bytes (List ℤ)
  pub user_level_index : Map ℤ RiskLevel

-- `none` is -1: safe and liquidate are not stored.
unfoldable pub level_to_index : RiskLevel → Option ℕ
level_to_index safe = none
level_to_index warning = some 0
level_to_index danger = some 1
level_to_index critical = some 2
level_to_index liquidate = none

module _ {Ratio : Type 0} (reaches : Ratio → Threshold → Bool) where
  unfoldable pub calculate_risk_level : Ratio → RiskLevel
  calculate_risk_level r =
      if reaches r threshold_liquidate
      then liquidate
      else if reaches r threshold_critical
      then critical
      else if reaches r threshold_danger
      then danger
      else if reaches r threshold_warning
      then warning
      else safe

  abbrev remove_users : List ℤ → CowMap Ratio → CowMap Ratio
  remove_users [] m = m
  remove_users (u ∷ users) m = remove_users users (erase u m)

  abbrev put_users : List (UserRiskData Ratio) → CowMap Ratio → CowMap Ratio
  put_users [] m = m
  put_users (d ∷ users) m = put_users users (insert d.user_id d m)

  -- The removals come before the updates.
  unfoldable pub batch_update : List (UserRiskData Ratio) → List ℤ → CowMap Ratio → CowMap Ratio
  batch_update updates removes m = put_users updates (remove_users removes m)

  abbrev pub set_user : UserRiskData Ratio → CowMap Ratio → CowMap Ratio
  set_user d m = batch_update (d ∷ []) [] m

  abbrev pub remove_user : ℤ → CowMap Ratio → CowMap Ratio
  remove_user u m = batch_update [] (u ∷ []) m

  unfoldable pub contains : ℤ → CowMap Ratio → Bool
  contains u m = elim (lookup u m) [ none ↦ false | some _ ↦ true ]

  abbrev pub at_index : Option ℕ → ℕ → Bool
  at_index none i = false
  at_index (some n) i = nat_beq i n

  unfoldable pub get_user : ℤ → RiskLevelIndex Ratio → Option (UserRiskData Ratio)
  get_user u idx = elim (lookup u idx.user_level_index) [
    | none ↦ none
    | some level ↦ elim (level_to_index level) [ none ↦ none | some i ↦ lookup u (idx.levels i) ]
  ]

  unfoldable pub update_user_level_index : ℤ → RiskLevel → Map ℤ RiskLevel → Map ℤ RiskLevel
  update_user_level_index u safe m = erase u m
  update_user_level_index u liquidate m = erase u m
  update_user_level_index u warning m = insert u warning m
  update_user_level_index u danger m = insert u danger m
  update_user_level_index u critical m = insert u critical m

  -- One level, which is the new one or not.
  unfoldable pub leave_level : ℤ → Bool → CowMap Ratio → CowMap Ratio
  leave_level u stays m = if contains u m then if stays then m else remove_user u m else m

  -- The loop over the levels: the user leaves every level but the new one.
  unfoldable pub leave_others : ℤ → Option ℕ → RiskLevelIndex Ratio → RiskLevelIndex Ratio
  leave_others u new idx = record idx {
    levels = λ i. leave_level u (at_index new i) (idx.levels i);
  }

  unfoldable pub enter_level :
      UserRiskData Ratio → RiskLevel → Option ℕ → RiskLevelIndex Ratio → RiskLevelIndex Ratio
  enter_level d level none idx = idx
  enter_level d level (some n) idx = record idx {
    user_level_index = update_user_level_index d.user_id level idx.user_level_index;
    levels = λ i.
        if nat_beq i n then set_user (record d { level = level }) (idx.levels i) else idx.levels i;
  }

  unfoldable pub update_user : UserRiskData Ratio → RiskLevelIndex Ratio → RiskLevelIndex Ratio
  update_user d idx =
      let level = calculate_risk_level d.risk_ratio in
      enter_level d level (level_to_index level) (leave_others d.user_id (level_to_index level) idx)

  abbrev is_among : ℤ → List (UserRiskData Ratio) → Bool
  is_among u [] = false
  is_among u (d ∷ users) = eqb_ℤ u d.user_id || is_among u users

  abbrev absent_keys : List (UserRiskData Ratio) → CowMap Ratio → List ℤ
  absent_keys users [] = []
  absent_keys users ((u, d) ∷ m) =
      if is_among d.user_id users then absent_keys users m else d.user_id ∷ absent_keys users m

  -- `userLevelIndex` is not written.
  unfoldable pub batch_update_level :
      RiskLevel → List (UserRiskData Ratio) → RiskLevelIndex Ratio → RiskLevelIndex Ratio
  batch_update_level level users idx = elim (level_to_index level) [
    | none ↦ idx
    | some n ↦ record idx {
      levels = λ i.
          if nat_beq i n
          then batch_update users (absent_keys users (idx.levels i)) (idx.levels i)
          else idx.levels i;
    }
  ]

  unfoldable pub get_by_level : RiskLevel → RiskLevelIndex Ratio → Option (CowMap Ratio)
  get_by_level level idx = elim (level_to_index level) [
    | none ↦ none
    | some i ↦ some (idx.levels i)
  ]

  unfoldable pub get_users_by_symbol : Bytes → RiskLevelIndex Ratio → List ℤ
  get_users_by_symbol symbol idx = elim (lookup symbol idx.symbol_to_users) [
    | none ↦ []
    | some users ↦ users
  ]

  abbrev append_user : ℤ → Bytes → Map Bytes (List ℤ) → Map Bytes (List ℤ)
  append_user u symbol m =
      insert symbol (elim (lookup symbol m) [ none ↦ u ∷ [] | some users ↦ users ++ (u ∷ []) ]) m

  abbrev append_symbols : ℤ → List Bytes → Map Bytes (List ℤ) → Map Bytes (List ℤ)
  append_symbols u [] m = m
  append_symbols u (symbol ∷ symbols) m = append_symbols u symbols (append_user u symbol m)

  abbrev append_users : List (UserRiskData Ratio) → Map Bytes (List ℤ) → Map Bytes (List ℤ)
  append_users [] m = m
  append_users (d ∷ users) m = append_users users (append_symbols d.user_id d.symbols m)

  unfoldable pub update_symbol_index :
      List (UserRiskData Ratio) → RiskLevelIndex Ratio → RiskLevelIndex Ratio
  update_symbol_index users idx = record idx { symbol_to_users = append_users users [] }

  unfoldable pub total_count : RiskLevelIndex Ratio → ℕ
  total_count idx = length (idx.levels 0) + length (idx.levels 1) + length (idx.levels 2)
