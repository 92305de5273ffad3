-- ===== src/Futures/Spec.antt =====
-- Contract specifications (pkg/futures/spec.go) and the checks of a new one
-- (pkg/futures/validation.go). Texts for printing are left aside.
pub mod Validation
use little_cex.Prelude.{
  ℕ, ℤ, pos, Bool, true, false, ◌&&◌, Option, none, some, List, Bytes, if◌then◌else◌, ltb_ℤ, leb_ℤ,
  eqb_ℤ, mul64, sub64, quotient, div64, bytes_eq,
}

-- `Precision` and `RatePrecision`
abbrev pub precision : ℕ
precision = 100000000

abbrev pub rate_precision : ℕ
rate_precision = 10000

pub data ContractStatus : Type 0 where
  pending trading settling settled delisted : ContractStatus

pub data ContractType : Type 0 where
  perpetual delivery : ContractType

abbrev pub status_code : ContractStatus → ℕ
status_code pending = 0
status_code trading = 1
status_code settling = 2
status_code settled = 3
status_code delisted = 4

pub record ContractSpec : Type 0 where
  pub symbol : Bytes
  pub base_currency : Bytes
  pub quote_currency : Bytes
  pub settle_currency : Bytes
  pub contract_type : ContractType
  pub contract_size : ℤ
  pub tick_size : ℤ
  pub min_order_qty : ℤ
  pub max_order_qty : ℤ
  pub max_position_qty : ℤ
  pub max_leverage : ℤ
  pub initial_margin_rate : ℤ
  pub maint_margin_rate : ℤ
  pub funding_interval : ℤ
  pub max_funding_rate : ℤ
  pub price_sources : List Bytes
  pub status : ContractStatus
  pub listed_at : ℤ
  pub expiry_at : ℤ
  pub created_at : ℤ
  pub updated_at : ℤ

abbrev pub is_perpetual_type : ContractType → Bool
is_perpetual_type perpetual = true
is_perpetual_type delivery = false

abbrev pub is_status : ContractStatus → ContractStatus → Bool
is_status a b = eqb_ℤ (pos (status_code a)) (pos (status_code b))

unfoldable pub is_perpetual : ContractSpec → Bool
is_perpetual s = is_perpetual_type s.contract_type

unfoldable pub is_trading : ContractSpec → Bool
is_trading s = is_status s.status trading

unfoldable pub is_expired : ContractSpec → ℤ → Bool
is_expired s now = ltb_ℤ (pos 0) s.expiry_at && leb_ℤ s.expiry_at now

-- `none` is the panic of a division by 0.
unfoldable pub calc_initial_margin : ContractSpec → ℤ → ℤ → Option ℤ
calc_initial_margin s position_value leverage =
    if leb_ℤ leverage (pos 0)
    then div64 position_value s.max_leverage
    else if ltb_ℤ s.max_leverage leverage
    then div64 position_value s.max_leverage
    else div64 position_value leverage

unfoldable pub calc_maint_margin : ContractSpec → ℤ → ℤ
calc_maint_margin s position_value =
    quotient (mul64 position_value s.maint_margin_rate) rate_precision

-- `price % tick` is what the division leaves; a tick of 0 panics, unless the price is refused first.
unfoldable pub validate_price : ContractSpec → ℤ → Option Bool
validate_price s price =
    if leb_ℤ price (pos 0) then some false else elim (div64 price s.tick_size) [
      | none ↦ none
      | some q ↦ some (eqb_ℤ (sub64 price (mul64 q s.tick_size)) (pos 0))
    ]

unfoldable pub validate_qty : ContractSpec → ℤ → Bool
validate_qty s qty = leb_ℤ s.min_order_qty qty && leb_ℤ qty s.max_order_qty
