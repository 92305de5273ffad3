-- ===== src/Futures/Processor/Refused.antt =====
-- Orders to open a position that are refused (OpenPosition of pkg/futures/processor.go) leave the
-- balances.
use little_cex.Prelude.{
  ◌≡◌, ◌≢◌, ◌⊎◌, inl, inr, refl, sym, ap, subst, pos, ◌≤ℤ◌, Bool, not, ◌||◌, Option, none, some,
  Bytes, if◌then◌else◌, ltb_ℤ, leb_ℤ, arith, Bool-cases, Option-cases, int_eq, nat_eq, bytes_eq,
  pair_eq,
}
use little_cex.Store.{Table, IsTable}
use little_cex.Fund.Balances.{
  BalanceKey, BalanceRecord, get_balance, freeze_balance, unfreeze_balance, locked_of,
}
use little_cex.Fund.Balances.Undo.{
  SameBalances, unfreeze_balance-freeze_balance, freeze_balance-refused, unfreeze_balance-succeeds,
}
use little_cex.Futures.Spec.{ContractSpec, is_trading}
use little_cex.Futures.Contracts.{ContractError, get_contract}
use little_cex.Futures.Positions.{PositionStore}
use little_cex.Futures.Processor.{
  OpenPositionRequest, FuturesError, Venue, required_margin, open_position, check_margin,
  freeze_and_submit, submit_open, give_back, contract_failed, contract_not_trading,
  invalid_leverage, insufficient_margin, balance_failed,
}
use little_cex.Futures.Processor.Open.{row_of}

module _ {Con Bal Pos : Type 0} (contracts : Table Bytes ContractSpec Con)
    (balances : Table BalanceKey BalanceRecord Bal) (store : PositionStore Pos)
    (law : IsTable balances) where
  -- No update of the balances fails in the database.
  abbrev pub IsSteady : Type 0
  IsSteady =
      (k : BalanceKey) (cond : BalanceRecord → Bool) (f : BalanceRecord → BalanceRecord) (d : Bal)
      → (balances.update k cond f d).0 ≢ none

  -- What a refused order leaves: the balances, the positions, the orders that are known and those sent.
  pub record IsRefused (v v' : Venue Con Bal Pos) : Type 0 where
    pub same : SameBalances balances law v.balances v'.balances
    pub positions : v'.positions ≡ v.positions
    pub metas : v'.metas ≡ v.metas
    pub submitted : v'.submitted ≡ v.submitted

  refused_open :
      (r : OpenPositionRequest) (currency : Bytes) (e : FuturesError) (v v' : Venue Con Bal Pos)
      → submit_open contracts balances store r currency v ≡ (some e, v')
      → (v'.balances
          ≡ (unfreeze_balance balances r.user_id currency (required_margin r) v.balances).1)
        × (v'.positions ≡ v.positions)
        × (v'.metas ≡ v.metas)
        × (v'.submitted ≡ v.submitted)
  unfolding submit_open give_back
  refused_open r currency e v v' h = ground arith

  module _ (steady : IsSteady) where
    IsRefused-freeze :
        (r : OpenPositionRequest) (currency : Bytes) (e : FuturesError) (v v' : Venue Con Bal Pos)
        → pos 0 ≤ℤ locked_of (row_of contracts balances store law r.user_id currency v)
        → freeze_and_submit contracts balances store r currency v ≡ (some e, v')
        → IsRefused v v'
    unfolding freeze_and_submit
    IsRefused-freeze r currency e v v' n h =
        elim (Option-cases
          (freeze_balance balances r.user_id currency (required_margin r) v.balances).0) [
            | inr (err, bad) ↦ record {
              same =
                  subst (SameBalances balances law v.balances)
                    (ap (λ (a : Option FuturesError × Venue Con Bal Pos). a.1.balances)
                      (rw (bad, freeze_and_submit) at h))
                    (freeze_balance-refused balances law r.user_id currency (required_margin r)
                      v.balances err bad);
              positions = ground arith;
              metas = ground arith;
              submitted = ground arith;
            }
            | inl ok ↦
                let (b, poss, metas, sent) =
                  refused_open r currency e
                    (record v {
                      balances =
                          (freeze_balance balances r.user_id currency (required_margin r)
                            v.balances).1;
                    })
                    v' (rw (ok, freeze_and_submit) at h) in
                record {
                  same = subst (SameBalances balances law v.balances) (sym b) (
                      unfreeze_balance-freeze_balance balances law r.user_id currency
                        (required_margin r) v.balances ok
                        (unfreeze_balance-succeeds balances law r.user_id currency
                          (required_margin r) v.balances n ok (steady _ _ _ _)));
                  positions = poss;
                  metas = metas;
                  submitted = sent;
                }
          ]

    untouched : (v : Venue Con Bal Pos) → IsRefused v v
    untouched v = record {
      same = record { agree = λ k. (refl, refl) };
      positions = refl;
      metas = refl;
      submitted = refl;
    }

    refused_or_frozen :
        (r : OpenPositionRequest) (currency : Bytes) (e : FuturesError) (v v' : Venue Con Bal Pos)
        → check_margin contracts balances store r currency v ≡ (some e, v')
        → (v ≡ v') ⊎ (freeze_and_submit contracts balances store r currency v ≡ (some e, v'))
    unfolding check_margin
    refused_or_frozen r currency e v v' h =
        go (get_balance balances r.user_id currency v.balances) h
      where
        go :
            (c : Option (Option BalanceRecord))
            → ◌≡◌ {A = Option FuturesError × Venue Con Bal Pos}
                (elim c [
                  | none ↦ (some balance_failed, v)
                  | some none ↦ (some insufficient_margin, v)
                  | some (some row) ↦
                      if ltb_ℤ row.available (required_margin r)
                      then (some insufficient_margin, v)
                      else freeze_and_submit contracts balances store r currency v
                ])
                (some e, v')
            → (v ≡ v') ⊎ (freeze_and_submit contracts balances store r currency v ≡ (some e, v'))
        go none q = inl (ap (λ a. a.1) q)
        go (some none) q = inl (ap (λ a. a.1) q)
        go (some (some row)) q = elim (Bool-cases (ltb_ℤ row.available (required_margin r))) [
          | inl t ↦ inl (ap (λ (a : Option FuturesError × Venue Con Bal Pos). a.1) (rw t at q))
          | inr t ↦ inr (rw t at q)
        ]

    IsRefused-check :
        (r : OpenPositionRequest) (currency : Bytes) (e : FuturesError) (v v' : Venue Con Bal Pos)
        → pos 0 ≤ℤ locked_of (row_of contracts balances store law r.user_id currency v)
        → check_margin contracts balances store r currency v ≡ (some e, v')
        → IsRefused v v'
    unfolding check_margin
    IsRefused-check r currency e v v' n h = elim (refused_or_frozen r currency e v v' h) [
      | inl same ↦ subst (IsRefused v) same (untouched v)
      | inr frozen ↦ IsRefused-freeze r currency e v v' n frozen
    ]

    -- An order to open a position that is refused, for whatever reason, by a database that takes
    -- every update: every balance, the positions, the orders that are known and those that were sent
    -- are as before, where no locked balance was below 0.
    pub open_position-IsRefused :
        (r : OpenPositionRequest) (e : FuturesError) (v v' : Venue Con Bal Pos)
        → ((k : BalanceKey) → pos 0 ≤ℤ locked_of (balances.row k v.balances))
        → open_position contracts balances store r v ≡ (some e, v')
        → IsRefused v v'
    unfolding open_position
    open_position-IsRefused r e v v' n h = go (get_contract contracts r.symbol v.contracts) h
      where
        go :
            (c : ContractError ⊎ ContractSpec)
            → ◌≡◌ {A = Option FuturesError × Venue Con Bal Pos}
                (elim c [
                  | inl e ↦ (some (contract_failed e), v)
                  | inr spec ↦
                      if not (is_trading spec)
                      then (some contract_not_trading, v)
                      else if leb_ℤ r.leverage (pos 0) || ltb_ℤ spec.max_leverage r.leverage
                      then (some invalid_leverage, v)
                      else check_margin contracts balances store r spec.settle_currency v
                ])
                (some e, v')
            → IsRefused v v'
        go (inl bad) h = subst (IsRefused v) (ap (λ a. a.1) h) (untouched v)
        go (inr spec) h = elim (Bool-cases (not (is_trading spec))) [
          | inl closed ↦
              subst (IsRefused v)
                (ap (λ (a : Option FuturesError × Venue Con Bal Pos). a.1) (rw closed at h))
                (untouched v)
          | inr trades ↦
              elim (Bool-cases (leb_ℤ r.leverage (pos 0) || ltb_ℤ spec.max_leverage r.leverage)) [
                | inl bad ↦
                    subst (IsRefused v)
                      (ap (λ (a : Option FuturesError × Venue Con Bal Pos). a.1)
                        (rw (trades, bad) at h))
                      (untouched v)
                | inr fine ↦
                    IsRefused-check r spec.settle_currency e v v'
                      (n (r.user_id, spec.settle_currency)) (rw (trades, fine) at h)
              ]
        ]
