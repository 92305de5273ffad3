-- ===== src/Futures/Funding.antt =====
-- Funding (pkg/futures/funding.go): the rate, what a position pays or gets, and its settlement for
-- a contract. The totals that it logs are left aside.
pub mod Pages
pub mod Schedule
use little_cex.Prelude.{
  ℕ, zero, suc, ◌+◌, ◌*◌, ◌/◌, ◌%◌, inl, inr, ℤ, pos, negsuc, pos_part, Option, none, some, List,
  [], ◌∷◌, Bytes, Map, if◌then◌else◌, leb, ltb_ℤ, leb_ℤ, eqb_ℤ, sub64, mul64, neg64, quotient,
  length, int_eq, bytes_eq, nat_eq, lookup, insert, erase, pair_eq,
}
use little_cex.Store.{Table}
use little_cex.Fund.Balances.{
  BalanceKey, BalanceRecord, RepoError, database, get_balance, add_available,
}
use little_cex.Futures.Spec.{ContractSpec, is_perpetual_type, precision}
use little_cex.Futures.Contracts.{ContractError, get_contract}
use little_cex.Futures.Position.{Position, is_empty}
use little_cex.Futures.Positions.{PositionStore, list_by_symbol}
use little_cex.Futures.MarkPrice.{Prices, get_mark_price, get_index_price}

abbrev max_funding_rate : ℤ
max_funding_rate = pos 75

abbrev min_funding_rate : ℤ
min_funding_rate = negsuc 74

abbrev pub funding_precision : ℕ
funding_precision = 10000

unfoldable pub clamp : ℤ → ℤ → ℤ → ℤ
clamp value low high = if ltb_ℤ value low then low else if ltb_ℤ high value then high else value

-- The index price was found to be positive.
abbrev premium_index : ℤ → ℤ → ℤ
premium_index contract_price index_price =
    quotient (mul64 (sub64 contract_price index_price) (pos funding_precision))
      (pos_part index_price)

unfoldable pub calculate_funding_rate : Bytes → Prices → ℤ
calculate_funding_rate symbol prices =
    if leb_ℤ (get_mark_price symbol prices) (pos 0)
    then pos 0
    else if leb_ℤ (get_index_price symbol prices) (pos 0)
    then pos 0
    else clamp (premium_index (get_mark_price symbol prices) (get_index_price symbol prices))
        min_funding_rate max_funding_rate

unfoldable pub calculate_funding_payment : Position → ℤ → ℤ → ℤ
calculate_funding_payment p funding_rate mark_price =
    quotient (quotient (mul64 (mul64 (neg64 p.size) mark_price) funding_rate) precision)
      funding_precision

-- The next of 00:00, 08:00 and 16:00 UTC, in milliseconds, as `time.Date` makes it of a day and an hour.
unfoldable pub next_funding_time_after : ℕ → ℕ
next_funding_time_after now =
    let day = now / 86400000 in
    let next_hour = (now / 3600000 % 24 / 8 + 1) * 8 in
    if leb 24 next_hour then (day + 1) * 86400000 else day * 86400000 + next_hour * 3600000

-- `updateAllFundingRates`, for the contracts that are trading.
unfoldable pub update_all_funding_rates : List ContractSpec → Prices → Map Bytes ℤ → Map Bytes ℤ
update_all_funding_rates [] prices rates = rates
update_all_funding_rates (spec ∷ specs) prices rates = update_all_funding_rates specs prices (
    if is_perpetual_type spec.contract_type
    then insert spec.symbol (calculate_funding_rate spec.symbol prices) rates
    else rates)

pub data FundingError : Type 0 where
  funding_in_progress list_failed : FundingError
  contract_failed : ContractError → FundingError

pub record FundingService (Con Bal Pos : Type 0) : Type 0 where
  pub con : Con
  pub bal : Bal
  pub pos_db : Pos
  pub prices : Prices
  pub funding_rates : Map Bytes ℤ
  pub next_funding_time : Map Bytes ℤ
  pub settling_symbols : Map Bytes (Unit {0})

module _ {Con Bal Pos : Type 0} (contracts : Table Bytes ContractSpec Con)
    (balances : Table BalanceKey BalanceRecord Bal) (store : PositionStore Pos) where
  abbrev rate_or_zero : Option ℤ → ℤ
  rate_or_zero none = pos 0
  rate_or_zero (some r) = r

  unfoldable pub get_funding_rate : Bytes → FundingService Con Bal Pos → ℤ
  get_funding_rate symbol s = rate_or_zero (lookup symbol s.funding_rates)

  unfoldable pub get_next_funding_time : Bytes → FundingService Con Bal Pos → ℤ
  get_next_funding_time symbol s = rate_or_zero (lookup symbol s.next_funding_time)

  -- At most what is available; all of it where there is no row.
  unfoldable pub deduct_amount : ℤ → Option BalanceRecord → ℤ
  deduct_amount payment none = neg64 payment
  deduct_amount payment (some r) =
      if ltb_ℤ r.available (neg64 payment) then r.available else neg64 payment

  unfoldable pub deduct_payment :
      Bytes → Position → ℤ → Option (Option BalanceRecord) → Bal → Option RepoError × Bal
  deduct_payment currency p payment none b = (some database, b)
  deduct_payment currency p payment (some row) b =
      if ltb_ℤ (pos 0) (deduct_amount payment row)
      then add_available balances p.user_id currency (neg64 (deduct_amount payment row)) b
      else (none, b)

  unfoldable pub apply_funding_payment : Bytes → Position → ℤ → Bal → Option RepoError × Bal
  apply_funding_payment currency p payment b =
      if eqb_ℤ payment (pos 0)
      then (none, b)
      else if ltb_ℤ (pos 0) payment
      then add_available balances p.user_id currency payment b
      else deduct_payment currency p payment (get_balance balances p.user_id currency b) b

  -- The positions of a page; an error of one is logged and stops none of the others.
  unfoldable pub fund_page : Bytes → ℤ → ℤ → List Position → Bal → Bal
  fund_page currency rate price [] b = b
  fund_page currency rate price (p ∷ ps) b = fund_page currency rate price ps (
      if is_empty p
      then b
      else (apply_funding_payment currency p (calculate_funding_payment p rate price) b).1)

  abbrev pub FundingEnd : Type 0
  FundingEnd = Option (Option FundingError) × Bal

  -- One round: `next` is the rest of the loop after a page.
  unfoldable pub fund_round :
      (List Position → Bal → FundingEnd) → Bytes → ℤ → ℤ → Option (List Position) → Bal → FundingEnd
  fund_round next currency rate price none b = (some (some list_failed), b)
  fund_round next currency rate price (some []) b = (some none, b)
  fund_round next currency rate price (some (p ∷ ps)) b =
      next (p ∷ ps) (fund_page currency rate price (p ∷ ps) b)

  -- The loop over the pages, with fuel; the outer `none` means that it ran out.
  unfoldable pub fund_pages : ℕ → ℕ → Bytes → Bytes → ℤ → ℤ → ℕ → Pos → Bal → FundingEnd
  fund_pages zero size symbol currency rate price offset d b = (none, b)
  fund_pages (suc fuel) size symbol currency rate price offset d b =
      fund_round (λ ps. fund_pages fuel size symbol currency rate price (offset + length ps) d)
        currency rate price (list_by_symbol store symbol size offset d) b

  abbrev pub update_next_funding_time :
      Bytes → ℕ → FundingService Con Bal Pos → FundingService Con Bal Pos
  update_next_funding_time symbol now s = record s {
    next_funding_time = insert symbol (ℤ.pos (next_funding_time_after now)) s.next_funding_time;
  }

  abbrev funded :
      Bytes
      → ℕ
      → FundingService Con Bal Pos
      → FundingEnd
      → Option (Option FundingError) × FundingService Con Bal Pos
  funded symbol now s (some none, b) =
      (some none, update_next_funding_time symbol now (record s { bal = b }))
  funded symbol now s (o, b) = (o, record s { bal = b })

  unfoldable pub fund_contract :
      ℕ
      → ℕ
      → Bytes
      → ℕ
      → FundingService Con Bal Pos
      → Option (Option FundingError) × FundingService Con Bal Pos
  fund_contract fuel size symbol now s = elim (get_contract contracts symbol s.con) [
    | inl e ↦ (some (some (contract_failed e)), s)
    | inr spec ↦
        if eqb_ℤ (get_funding_rate symbol s) (pos 0)
        then (some none, update_next_funding_time symbol now s)
        else funded symbol now s (
            fund_pages fuel size spec.symbol spec.settle_currency (get_funding_rate symbol s)
              (get_mark_price symbol s.prices) 0 s.pos_db s.bal)
  ]

  -- The mark of the settlement is set first and removed at the end, whatever the outcome.
  unfoldable pub settle_funding :
      ℕ
      → ℕ
      → Bytes
      → ℕ
      → FundingService Con Bal Pos
      → Option (Option FundingError) × FundingService Con Bal Pos
  settle_funding fuel size symbol now s = elim (lookup symbol s.settling_symbols) [
    | some _ ↦ (some (some funding_in_progress), s)
    | none ↦
        let (r, s') =
          fund_contract fuel size symbol now
            (record s { settling_symbols = insert symbol tt s.settling_symbols }) in
        (r, record s' { settling_symbols = erase symbol s'.settling_symbols })
  ]
