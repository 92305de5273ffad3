-- ===== src/Futures/Settlement/Run.antt =====
-- One settlement of a contract from its checks to its last status (settleContract of
-- pkg/futures/settlement.go), and whether a contract may still be opened (CanOpenPosition).
use little_cex.Prelude.{
  ℕ, ◌⊎◌, inl, inr, ℤ, pos, Bool, false, Option, none, some, Bytes, Map, if◌then◌else◌, ltb_ℤ,
  leb_ℤ, sub64, int_eq, bytes_eq, nat_eq, lookup, insert, erase, pair_eq,
}
use little_cex.Store.{Table}
use little_cex.Fund.Balances.{BalanceKey, BalanceRecord}
use little_cex.Futures.Spec.{
  ContractSpec, trading, settling, is_status, is_expired, is_trading, is_perpetual_type,
}
use little_cex.Futures.Contracts.{ContractError, get_contract, start_settlement, finish_settlement}
use little_cex.Futures.Positions.{PositionStore}
use little_cex.Futures.Settlement.{
  SettleError, in_progress, not_expired, not_settling, no_price, contract_error, Books,
  settle_pages,
}

pub record Exchange (Con Bal Pos : Type 0) : Type 0 where
  pub contracts : Con
  pub books : Books Bal Pos
  -- `settlingContracts`
  pub in_settlement : Map Bytes (Unit {0})

-- `PreSettleWindow` in milliseconds is a parameter of `can_open_position`.
unfoldable pub can_open : ContractSpec → ℤ → ℤ → Bool
can_open spec window now =
    if is_perpetual_type spec.contract_type
    then is_trading spec
    else if ltb_ℤ (pos 0) spec.expiry_at
    then if leb_ℤ (sub64 spec.expiry_at window) now then false else is_trading spec
    else is_trading spec

module _ {Con Bal Pos : Type 0} (contracts : Table Bytes ContractSpec Con)
    (balances : Table BalanceKey BalanceRecord Bal) (store : PositionStore Pos) where
  unfoldable pub can_open_position : Bytes → ℤ → ℤ → Con → ContractError ⊎ Bool
  can_open_position symbol window now c = elim (get_contract contracts symbol c) [
    | inl e ↦ inl e
    | inr spec ↦ inr (can_open spec window now)
  ]

  -- The outer `none` means that the fuel of the loop over the pages ran out.
  abbrev pub Ended : Type 0
  Ended = Option (Option SettleError) × Exchange Con Bal Pos

  abbrev pages_ended :
      Bytes → ℤ → Exchange Con Bal Pos → Option (Option SettleError) × Books Bal Pos → Ended
  pages_ended symbol now x (none, b) = (none, record x { books = b })
  pages_ended symbol now x (some (some e), b) = (some (some e), record x { books = b })
  pages_ended symbol now x (some none, b) =
      let (e, c) = finish_settlement contracts symbol now x.contracts in
      (
        some (elim e [ none ↦ none | some _ ↦ some contract_error ]),
        record x { contracts = c; books = b },
      )

  unfoldable pub settle_at_price : ℕ → ℕ → ContractSpec → ℤ → ℤ → Exchange Con Bal Pos → Ended
  settle_at_price fuel size spec price now x =
      if leb_ℤ price (pos 0)
      then (some (some no_price), x)
      else pages_ended spec.symbol now x
          (settle_pages balances store fuel size spec.symbol spec.settle_currency price 0 x.books)

  -- The status as it was read decides; the update looks at the status in the database.
  unfoldable pub start_and_settle : ℕ → ℕ → ContractSpec → ℤ → ℤ → Exchange Con Bal Pos → Ended
  start_and_settle fuel size spec price now x =
      if is_status spec.status trading
      then (let (e, c) = start_settlement contracts spec.symbol now x.contracts in
          elim e [
            | some _ ↦ (some (some contract_error), record x { contracts = c })
            | none ↦ settle_at_price fuel size spec price now (record x { contracts = c })
          ])
      else if is_status spec.status settling
      then settle_at_price fuel size spec price now x
      else (some (some not_settling), x)

  unfoldable pub settle_checked : ℕ → ℕ → Bytes → ℤ → ℤ → Exchange Con Bal Pos → Ended
  settle_checked fuel size symbol price now x = elim (get_contract contracts symbol x.contracts) [
    | inl _ ↦ (some (some contract_error), x)
    | inr spec ↦
        if is_expired spec now
        then start_and_settle fuel size spec price now x
        else (some (some not_expired), x)
  ]

  -- The mark is set first and removed at the end, whatever the outcome.
  unfoldable pub settle_contract : ℕ → ℕ → Bytes → ℤ → ℤ → Exchange Con Bal Pos → Ended
  settle_contract fuel size symbol price now x = elim (lookup symbol x.in_settlement) [
    | some _ ↦ (some (some in_progress), x)
    | none ↦
        let (r, x') =
          settle_checked fuel size symbol price now
            (record x { in_settlement = insert symbol tt x.in_settlement }) in
        (r, record x' { in_settlement = erase symbol x'.in_settlement })
  ]
