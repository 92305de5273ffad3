-- ===== src/Futures/Processor/Open.antt =====
-- What opening a position does (OpenPosition of pkg/futures/processor.go): an order that is taken
-- has its margin frozen.
use little_cex.Prelude.{
  ◌≡◌, ◌⊎◌, inl, inr, refl, sym, subst, ℤ, pos, ◌≤ℤ◌, ◌<ℤ◌, true, not, ◌||◌, Option, none, some,
  ◌∷◌, Bytes, if◌then◌else◌, ltb_ℤ, leb_ℤ, arith, Option-cases, lookup, lookup-insert_self, int_eq,
  nat_eq, bytes_eq, pair_eq,
}
use little_cex.Store.{Table, IsTable}
use little_cex.Fund.Balances.{BalanceKey, BalanceRecord, freeze_balance}
use little_cex.Fund.Balances.Undo.{IsMoved, freeze_balance-moves}
use little_cex.Futures.Spec.{ContractSpec, is_trading}
use little_cex.Futures.Contracts.{ContractError, get_contract}
use little_cex.Futures.Positions.{PositionStore}
use little_cex.Futures.Processor.{
  OpenPositionRequest, FuturesError, Venue, OrderMeta, open_meta, match_order, required_margin,
  open_position, check_margin, freeze_and_submit, submit_open, contract_failed,
  contract_not_trading, invalid_leverage,
}

module _ {Con Bal Pos : Type 0} (contracts : Table Bytes ContractSpec Con)
    (balances : Table BalanceKey BalanceRecord Bal) (store : PositionStore Pos)
    (law : IsTable balances) where
  abbrev pub row_of : ℤ → Bytes → Venue Con Bal Pos → Option BalanceRecord
  row_of uid currency v = balances.row (uid, currency) v.balances

  -- What an order that was taken leaves.
  pub record IsOpened (r : OpenPositionRequest) (spec : ContractSpec) (v v' : Venue Con Bal Pos)
      : Type 0 where
    pub contract : get_contract contracts r.symbol v.contracts ≡ inr spec
    pub trades : is_trading spec ≡ true
    pub some_leverage : pos 0 <ℤ r.leverage
    pub leverage_bound : r.leverage ≤ℤ spec.max_leverage
    pub moved :
        IsMoved
          (required_margin r)
          (row_of r.user_id spec.settle_currency v)
          (row_of r.user_id spec.settle_currency v')
    pub remembered : lookup (v.order_ids 0) v'.metas ≡ some (open_meta r)
    pub sent :
        v'.submitted
        ≡ match_order (v.order_ids 0) r.user_id r.symbol r.side r.price r.qty ∷ v.submitted
    pub positions : v'.positions ≡ v.positions

  submitted_open :
      (r : OpenPositionRequest) (currency : Bytes) (v v' : Venue Con Bal Pos)
      → submit_open contracts balances store r currency v ≡ (none, v')
      → (v'.balances ≡ v.balances)
        × (lookup (v.order_ids 0) v'.metas ≡ some (open_meta r))
        × (v'.submitted
            ≡ match_order (v.order_ids 0) r.user_id r.symbol r.side r.price r.qty ∷ v.submitted)
        × (v'.positions ≡ v.positions)
  unfolding submit_open
  submitted_open r currency v v' h =
      ground (arith, lookup-insert_self {V = OrderMeta} (v.order_ids 0) (open_meta r) v.metas)

  frozen_open :
      (r : OpenPositionRequest) (currency : Bytes) (v v' : Venue Con Bal Pos)
      → freeze_and_submit contracts balances store r currency v ≡ (none, v')
      → IsMoved (required_margin r) (row_of r.user_id currency v) (row_of r.user_id currency v')
        × (lookup (v.order_ids 0) v'.metas ≡ some (open_meta r))
        × (v'.submitted
            ≡ match_order (v.order_ids 0) r.user_id r.symbol r.side r.price r.qty ∷ v.submitted)
        × (v'.positions ≡ v.positions)
  unfolding freeze_and_submit
  frozen_open r currency v v' h =
      elim (Option-cases
        (freeze_balance balances r.user_id currency (required_margin r) v.balances).0) [
          | inr (e, bad) ↦ absurd (ground arith)
          | inl ok ↦
              let (same, meta, sent, poss) =
                submitted_open r currency
                  (record v {
                    balances =
                        (freeze_balance balances r.user_id currency (required_margin r)
                          v.balances).1;
                  })
                  v' (rw (ok, freeze_and_submit) at h) in
              (
                subst
                    (λ (b : Bal).
                      IsMoved (required_margin r) (row_of r.user_id currency v)
                        (balances.row (r.user_id, currency) b))
                    (sym same)
                    (freeze_balance-moves balances law r.user_id currency (required_margin r)
                      v.balances ok),
                meta,
                sent,
                poss,
              )
        ]

  checked_open :
      (r : OpenPositionRequest) (currency : Bytes) (v v' : Venue Con Bal Pos)
      → check_margin contracts balances store r currency v ≡ (none, v')
      → freeze_and_submit contracts balances store r currency v ≡ (none, v')
  unfolding check_margin
  checked_open r currency v v' h = ground arith

  -- An order to open a position that is accepted: the contract trades, the leverage is from 1 to the
  -- contract's, the required margin has moved from what the user has available to what is locked, the
  -- order has gone to the matching engine, and it is remembered with that margin. No position is
  -- touched.
  pub open_position-IsOpened :
      (r : OpenPositionRequest) (v v' : Venue Con Bal Pos)
      → open_position contracts balances store r v ≡ (none, v')
      → (spec : ContractSpec) × IsOpened r spec v v'
  unfolding open_position
  open_position-IsOpened r v v' h = go (get_contract contracts r.symbol v.contracts) refl h
    where
      go :
          (c : ContractError ⊎ ContractSpec)
          → get_contract contracts r.symbol v.contracts ≡ c
          → ◌≡◌ {A = Option FuturesError × Venue Con Bal Pos}
              (elim c [
                | inl e ↦ (some (contract_failed e), v)
                | inr spec ↦
                    if not (is_trading spec)
                    then (some contract_not_trading, v)
                    else if leb_ℤ r.leverage (pos 0) || ltb_ℤ spec.max_leverage r.leverage
                    then (some invalid_leverage, v)
                    else check_margin contracts balances store r spec.settle_currency v
              ])
              (none, v')
          → (spec : ContractSpec) × IsOpened r spec v v'
      go (inl e) c h = absurd (ground arith)
      go (inr spec) c h =
          let checked : check_margin contracts balances store r spec.settle_currency v
              ≡ (none, v') =
            ground arith in
          let (moved, meta, sent, poss) =
            frozen_open r spec.settle_currency v v'
              (checked_open r spec.settle_currency v v' checked) in
          (
            spec,
            record {
              contract = c;
              trades = ground arith;
              some_leverage = ground arith;
              leverage_bound = ground arith;
              moved = moved;
              remembered = meta;
              sent = sent;
              positions = poss;
            },
          )
