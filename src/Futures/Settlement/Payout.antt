-- ===== src/Futures/Settlement/Payout.antt =====
-- What the settlement of one position pays (settlePosition of pkg/futures/settlement.go).
use little_cex.Prelude.{
  ◌≢◌, ◌∙◌, ap, refl, ◌≡◌, inl, inr, ℤ, pos, ◌+ℤ◌, ◌≤ℤ◌, false, none, Bytes, ltb_ℤ, arith, int_laws,
  Bool-cases, Option-cases, int_eq, bytes_eq, nat_eq, pair_eq, eq_of_parts,
}
use little_cex.Store.{Table, IsTable}
use little_cex.Fund.Balances.{BalanceKey, BalanceRecord, add_available, available_of}
use little_cex.Fund.Balances.Undo.{add_available-adds}
use little_cex.Futures.Position.{Position}
use little_cex.Futures.Positions.{PositionStore, IsPositionStore, upserted}
use little_cex.Futures.Positions.Open.{save-rows}
use little_cex.Futures.Settlement.Removed.{settled_saved}
use little_cex.Futures.Settlement.{
  Books, settle_position, save_closed, closed_position, settlement_amount,
}

settlement_amount-not_negative : (p : Position) (price : ℤ) → pos 0 ≤ℤ settlement_amount p price
unfolding settlement_amount
settlement_amount-not_negative p price = ground arith

nothing_more : (z a : ℤ) → pos 0 ≤ℤ a → ltb_ℤ (pos 0) a ≡ false → z ≡ z +ℤ a
nothing_more z a h t = let e : a ≡ pos 0 = ground arith in rw e (eq_of_parts _ _ (omega int_laws))

module _ {Bal Pos : Type 0} (table : Table BalanceKey BalanceRecord Bal) (store : PositionStore Pos)
    (law : IsTable table) (stored : IsPositionStore store) (currency : Bytes) (price : ℤ) where
  -- What the settlement of a position leaves.
  pub record IsPaid (p : Position) (b after : Books Bal Pos) : Type 0 where
    pub not_negative : pos 0 ≤ℤ settlement_amount p price
    pub paid :
        available_of (table.row (p.user_id, currency) after.balances)
        ≡ available_of (table.row (p.user_id, currency) b.balances) +ℤ settlement_amount p price
    pub others :
        (k : BalanceKey)
        → k ≢ (p.user_id, currency)
        → table.row k after.balances ≡ table.row k b.balances
    pub closed :
        store.rows after.positions ≡ upserted (closed_position p price) (store.rows b.positions)

  -- A position that is settled without an error pays its user the settlement amount, which is not
  -- negative, in the settlement currency and nothing else to anyone, and writes its closed row in
  -- the place of its row, or behind the others where it has none.
  pub settle_position-IsPaid :
      (p : Position) (b : Books Bal Pos)
      → (settle_position table store currency p price b).0 ≡ none
      → IsPaid p b (settle_position table store currency p price b).1
  unfolding settle_position save_closed add_available
  settle_position-IsPaid p b done =
      let (saved, at) = settled_saved table store stored p.symbol currency price p b done in
      let closed : store.rows (settle_position table store currency p price b).1.positions
          ≡ upserted (closed_position p price) (store.rows b.positions) =
        ap store.rows at ∙ save-rows store stored (closed_position p price) b.positions saved in
      elim (Bool-cases (ltb_ℤ (pos 0) (settlement_amount p price))) [
        | inl t ↦
            elim (Option-cases
              (add_available table p.user_id currency (settlement_amount p price) b.balances).0) [
                | inl e ↦ record {
                  not_negative = settlement_amount-not_negative p price;
                  paid =
                      rw (t, e)
                        (add_available-adds table law p.user_id currency (settlement_amount p price)
                          b.balances e);
                  others = λ k other. rw (t, e) (add_available-only k other b.balances);
                  closed = closed;
                }
                | inr (err, e) ↦ absurd (ground arith)
              ]
        | inr t ↦ record {
          not_negative = settlement_amount-not_negative p price;
          paid = rw t (nothing_more _ _ (settlement_amount-not_negative p price) t);
          others = λ k other. rw t refl;
          closed = closed;
        }
      ]
    where
      add_available-only :
          (k : BalanceKey)
          → k ≢ (p.user_id, currency)
          → (d : Bal)
          → table.row k (add_available table p.user_id currency (settlement_amount p price) d).1
            ≡ table.row k d
      add_available-only k other d = law.upsert_only (p.user_id, currency) _ _ d k other
