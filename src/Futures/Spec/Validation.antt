-- ===== src/Futures/Spec/Validation.antt =====
-- The checks and defaults of a new contract (pkg/futures/validation.go).
use little_cex.Prelude.{
  ◌≡◌, ℤ, pos, negsuc, ◌≤ℤ◌, ◌<ℤ◌, Bool, true, false, ◌||◌, List, [], ◌∷◌, Bytes, if◌then◌else◌,
  ltb_ℤ, leb_ℤ, quotient, Option, none, some, arith, ◌≢◌,
}
use little_cex.Futures.Spec.{ContractType, perpetual, delivery, is_perpetual_type, rate_precision}

pub record CreateContractRequest : Type 0 where
  pub symbol : Bytes
  pub base_currency : Bytes
  pub quote_currency : Bytes
  pub settle_currency : Bytes
  pub contract_type : ContractType
  pub contract_size : ℤ
  pub tick_size : ℤ
  pub min_order_qty : ℤ
  pub max_order_qty : ℤ
  pub max_position_qty : ℤ
  pub max_leverage : ℤ
  pub initial_margin_rate : ℤ
  pub maint_margin_rate : ℤ
  pub funding_interval : ℤ
  pub max_funding_rate : ℤ
  pub price_sources : List Bytes
  pub expiry_at : ℤ

-- The errors, one for each text.
pub data Invalid : Type 0 where
  symbol_required currency_required size_not_positive tick_not_positive leverage_out_of_range
        maint_not_below_initial expiry_required source_required :
      Invalid

abbrev is_nil : {A : Type 0} → List A → Bool
is_nil [] = true
is_nil (_ ∷ _) = false

-- `RatePrecision / req.MaxLeverage`, for a leverage that was found positive.
abbrev default_rate : ℤ → ℤ
default_rate (pos n) = quotient (pos rate_precision) n
default_rate (negsuc _) = pos 0

unfoldable default_currency : CreateContractRequest → CreateContractRequest
default_currency r = record r {
  settle_currency = if is_nil r.settle_currency then r.quote_currency else r.settle_currency;
}

abbrev initial_rate : CreateContractRequest → ℤ
initial_rate r =
    if leb_ℤ r.initial_margin_rate (pos 0)
    then default_rate r.max_leverage
    else r.initial_margin_rate

unfoldable default_rates : CreateContractRequest → CreateContractRequest
default_rates r = record r {
  initial_margin_rate = initial_rate r;
  maint_margin_rate =
      if leb_ℤ r.maint_margin_rate (pos 0)
      then quotient (initial_rate r) 2
      else r.maint_margin_rate;
}

unfoldable default_funding : CreateContractRequest → CreateContractRequest
default_funding r =
    if is_perpetual_type r.contract_type
    then record r {
      funding_interval = if leb_ℤ r.funding_interval (pos 0) then pos 28800 else r.funding_interval;
      max_funding_rate = if leb_ℤ r.max_funding_rate (pos 0) then pos 75 else r.max_funding_rate;
    }
    else r

-- The checks that follow the defaults of the rates.
unfoldable check_last : CreateContractRequest → Option Invalid
check_last r =
    if (if is_perpetual_type r.contract_type then false else leb_ℤ r.expiry_at (pos 0))
    then some expiry_required
    else if is_nil r.price_sources
    then some source_required
    else none

unfoldable check_rates : CreateContractRequest → Option Invalid × CreateContractRequest
check_rates r =
    if leb_ℤ r.initial_margin_rate r.maint_margin_rate
    then (some maint_not_below_initial, r)
    else (check_last (default_funding r), default_funding r)

unfoldable check_sizes : CreateContractRequest → Option Invalid × CreateContractRequest
check_sizes r =
    if leb_ℤ r.contract_size (pos 0)
    then (some size_not_positive, r)
    else if leb_ℤ r.tick_size (pos 0)
    then (some tick_not_positive, r)
    else if leb_ℤ r.max_leverage (pos 0) || ltb_ℤ (pos 200) r.max_leverage
    then (some leverage_out_of_range, r)
    else check_rates (default_rates r)

-- The request is a pointer, and its defaults are filled in on the way: they stay also where a later
-- check fails. `none` is the nil error.
unfoldable pub validate_create_request :
    CreateContractRequest → Option Invalid × CreateContractRequest
unfolding default_currency default_rates default_funding check_last check_rates check_sizes
validate_create_request req =
    if is_nil req.symbol
    then (some symbol_required, req)
    else if is_nil req.base_currency || is_nil req.quote_currency
    then (some currency_required, req)
    else check_sizes (default_currency req)

-- What a contract that passed may be relied on for.
pub record IsUsable (r : CreateContractRequest) : Type 0 where
  pub named : r.symbol ≢ []
  pub settled_in : r.settle_currency ≢ []
  pub sized : pos 0 <ℤ r.contract_size
  pub ticks : pos 0 <ℤ r.tick_size
  pub some_leverage : pos 0 <ℤ r.max_leverage
  pub leverage_bound : r.max_leverage ≤ℤ pos 200
  pub maint_not_negative : pos 0 ≤ℤ r.maint_margin_rate
  pub maint_below : r.maint_margin_rate <ℤ r.initial_margin_rate
  pub priced : r.price_sources ≢ []
  pub funds : r.contract_type ≡ perpetual → pos 0 <ℤ r.funding_interval
  pub expires : r.contract_type ≡ delivery → pos 0 <ℤ r.expiry_at

check_last-priced : (r : CreateContractRequest) → check_last r ≡ none → r.price_sources ≢ []
unfolding check_last
check_last-priced r h = ground arith

check_last-expires :
    (r : CreateContractRequest)
    → check_last r ≡ none
    → r.contract_type ≡ delivery
    → pos 0 <ℤ r.expiry_at
unfolding check_last
check_last-expires r h d = ground arith

-- A request that is accepted is usable with the defaults filled in: it has a name, a settlement
-- currency, positive sizes, a leverage from 1 to 200, a maintenance rate from 0 to below the initial
-- rate, a price source, a funding interval if it is perpetual and an expiry if it is not.
pub validate_create_request-IsUsable :
    (req : CreateContractRequest)
    → (validate_create_request req).0 ≡ none
    → IsUsable (validate_create_request req).1
unfolding validate_create_request quotient
validate_create_request-IsUsable req h = ground arith
