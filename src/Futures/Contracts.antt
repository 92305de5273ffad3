-- ===== src/Futures/Contracts.antt =====
-- The contracts in the database (pkg/futures/mysql_repo.go) and their manager
-- (pkg/futures/manager.go), over the repository without its cache.
pub mod Lifecycle
use little_cex.Prelude.{
  ℕ, zero, suc, ◌⊎◌, inl, inr, ℤ, pos, pos_part, ◌&&◌, ◌||◌, true, Option, none, some, List, [],
  ◌∷◌, Bytes, if◌then◌else◌, ltb_ℤ, leb_ℤ, eqb_ℤ, quotient, int_eq, bytes_eq, nat_eq, pair_eq,
}
use little_cex.Store.{Table}
use little_cex.Futures.Spec.{
  ContractType, perpetual, delivery, ContractSpec, ContractStatus, pending, trading, settling,
  settled, delisted, is_status, rate_precision,
}
use little_cex.Futures.Spec.Validation.{CreateContractRequest, Invalid, validate_create_request}

pub data ContractError : Type 0 where
  symbol_not_found database invalid_leverage : ContractError
  invalid_request : Invalid → ContractError

abbrev must_affect : Option ℕ → Option ContractError
must_affect none = some database
must_affect (some zero) = some symbol_not_found
must_affect (some (suc _)) = none

-- The time of the first listing is kept.
abbrev pub listed : ContractStatus → ℤ → ℤ → ℤ
listed to now before = if is_status to trading && eqb_ℤ before (pos 0) then now else before

abbrev pub with_status : ContractStatus → ℤ → ContractSpec → ContractSpec
with_status to now s = record s {
  status = to;
  updated_at = now;
  listed_at = listed to now s.listed_at;
}

abbrev nonzero : ℤ → ℤ → ℤ
nonzero new old = if eqb_ℤ new (pos 0) then old else new

abbrev pub nonempty : {A : Type 0} → List A → List A → List A
nonempty [] old = old
nonempty (x ∷ new) old = x ∷ new

abbrev pub status_or : ContractStatus → ContractStatus → ContractStatus
status_or pending old = old
status_or trading old = trading
status_or settling old = settling
status_or settled old = settled
status_or delisted old = delisted

abbrev type_or : ContractType → ContractType → ContractType
type_or perpetual old = old
type_or delivery old = delivery

-- `Updates` with a struct writes its fields that are not 0, the status among them.
abbrev pub overwrite : ContractSpec → ContractSpec → ContractSpec
overwrite s old = record {
  symbol = nonempty s.symbol old.symbol;
  base_currency = nonempty s.base_currency old.base_currency;
  quote_currency = nonempty s.quote_currency old.quote_currency;
  settle_currency = nonempty s.settle_currency old.settle_currency;
  contract_type = type_or s.contract_type old.contract_type;
  contract_size = nonzero s.contract_size old.contract_size;
  tick_size = nonzero s.tick_size old.tick_size;
  min_order_qty = nonzero s.min_order_qty old.min_order_qty;
  max_order_qty = nonzero s.max_order_qty old.max_order_qty;
  max_position_qty = nonzero s.max_position_qty old.max_position_qty;
  max_leverage = nonzero s.max_leverage old.max_leverage;
  initial_margin_rate = nonzero s.initial_margin_rate old.initial_margin_rate;
  maint_margin_rate = nonzero s.maint_margin_rate old.maint_margin_rate;
  funding_interval = nonzero s.funding_interval old.funding_interval;
  max_funding_rate = nonzero s.max_funding_rate old.max_funding_rate;
  price_sources = nonempty s.price_sources old.price_sources;
  status = status_or s.status old.status;
  listed_at = nonzero s.listed_at old.listed_at;
  expiry_at = nonzero s.expiry_at old.expiry_at;
  created_at = nonzero s.created_at old.created_at;
  updated_at = nonzero s.updated_at old.updated_at;
}

-- The contract that CreateContract builds from a request that passed.
unfoldable pub contract_of : CreateContractRequest → ℤ → ContractSpec
contract_of r now = record {
  symbol = r.symbol;
  base_currency = r.base_currency;
  quote_currency = r.quote_currency;
  settle_currency = r.settle_currency;
  contract_type = r.contract_type;
  contract_size = r.contract_size;
  tick_size = r.tick_size;
  min_order_qty = r.min_order_qty;
  max_order_qty = r.max_order_qty;
  max_position_qty = r.max_position_qty;
  max_leverage = r.max_leverage;
  initial_margin_rate = r.initial_margin_rate;
  maint_margin_rate = r.maint_margin_rate;
  funding_interval = r.funding_interval;
  max_funding_rate = r.max_funding_rate;
  price_sources = r.price_sources;
  status = pending;
  listed_at = pos 0;
  expiry_at = r.expiry_at;
  created_at = now;
  updated_at = now;
}

module _ {Db : Type 0} (table : Table Bytes ContractSpec Db) where
  unfoldable pub get_contract : Bytes → Db → ContractError ⊎ ContractSpec
  get_contract symbol d = elim (table.select symbol d) [
    | none ↦ inl database
    | some none ↦ inl symbol_not_found
    | some (some s) ↦ inr s
  ]

  -- The error is that of a missing symbol also where the contract has another status.
  unfoldable pub update_status :
      Bytes → ContractStatus → ContractStatus → ℤ → Db → Option ContractError × Db
  update_status symbol from to now d =
      let (n, d') = table.update symbol (λ s. is_status s.status from) (with_status to now) d in
      (must_affect n, d')

  unfoldable pub list_contract : Bytes → ℤ → Db → Option ContractError × Db
  list_contract symbol = update_status symbol pending trading

  unfoldable pub delist_contract : Bytes → ℤ → Db → Option ContractError × Db
  delist_contract symbol = update_status symbol trading delisted

  unfoldable pub start_settlement : Bytes → ℤ → Db → Option ContractError × Db
  start_settlement symbol = update_status symbol trading settling

  unfoldable pub finish_settlement : Bytes → ℤ → Db → Option ContractError × Db
  finish_settlement symbol = update_status symbol settling settled

  -- `Create` is a statement that fails where the symbol exists.
  unfoldable pub create_contract :
      (ContractSpec → Db → Option ContractError × Db)
      → CreateContractRequest
      → ℤ
      → Db
      → Option ContractError × Db
  create_contract create req now d = elim (validate_create_request req).0 [
    | some e ↦ (some (invalid_request e), d)
    | none ↦ create (contract_of (validate_create_request req).1 now) d
  ]

  -- `Update`
  unfoldable pub update_contract : ContractSpec → ℤ → Db → Option ContractError × Db
  update_contract s now d =
      let (n, d') =
        table.update s.symbol (λ _. true) (overwrite (record s { updated_at = now })) d in
      (must_affect n, d')

  -- The initial margin rate becomes 1 over the leverage.
  unfoldable pub update_leverage : Bytes → ℤ → ℤ → Db → Option ContractError × Db
  update_leverage symbol max_leverage now d = elim (get_contract symbol d) [
    | inl e ↦ (some e, d)
    | inr s ↦
        if leb_ℤ max_leverage (pos 0) || ltb_ℤ (pos 200) max_leverage
        then (some invalid_leverage, d)
        else update_contract
            (record s {
              max_leverage = max_leverage;
              initial_margin_rate = quotient (pos rate_precision) (pos_part max_leverage);
            })
            now d
  ]
