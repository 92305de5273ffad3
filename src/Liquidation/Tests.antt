-- ===== src/Liquidation/Tests.antt =====
-- A run of the index: a user at risk becomes critical. The ratios are hundredths.
use little_cex.Prelude.{
  ℕ, inl, refl, pos, Bool, [], ◌∷◌, leb, int_eq, bytes_eq, nat_eq, lookup, ascii, pair_eq,
}
use little_cex.Liquidation.Index.{
  UserRiskData, RiskLevelIndex, Threshold, threshold_warning, threshold_danger, threshold_critical,
  threshold_liquidate, warning, update_user,
}
use little_cex.Liquidation.Index.Placed.{IsIndexed, IsPlaced, update_user-IsPlaced}

abbrev bound : Threshold → ℕ
bound threshold_warning = 70
bound threshold_danger = 80
bound threshold_critical = 90
bound threshold_liquidate = 100

abbrev reaches : ℕ → Threshold → Bool
reaches ratio t = leb (bound t) ratio

abbrev at_risk : ℕ → ℕ → UserRiskData ℕ
at_risk uid ratio = record {
  user_id = pos uid;
  risk_ratio = ratio;
  equity = 1000;
  maint_margin = 900;
  level = warning;
  updated_at = pos 0;
  symbols = ascii "BTC_USDT" ∷ [];
}

abbrev empty : RiskLevelIndex ℕ
empty = record { levels = λ i. []; symbol_to_users = []; user_level_index = [] }

empty-IsIndexed : IsIndexed reaches empty
unfolding lookup
empty-IsIndexed u i = inl refl

abbrev watched : RiskLevelIndex ℕ
watched = update_user reaches (at_risk 7 75) empty

watched-IsIndexed : IsIndexed reaches watched
watched-IsIndexed = (update_user-IsPlaced reaches (at_risk 7 75) empty empty-IsIndexed).indexed

update_user-IsPlaced_example :
    IsPlaced reaches (at_risk 7 95) watched (update_user reaches (at_risk 7 95) watched)
update_user-IsPlaced_example = update_user-IsPlaced reaches (at_risk 7 95) watched watched-IsIndexed
