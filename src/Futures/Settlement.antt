-- ===== src/Futures/Settlement.antt =====
-- Settlement of expired contracts (pkg/futures/settlement.go). A batch runs its positions in
-- parallel, each on rows of its own; here they run in the order of the list.
pub mod Run
pub mod Lists
pub mod Removed
pub mod Skipped
pub mod Ends
pub mod Payout
use little_cex.Prelude.{
  ℕ, zero, suc, ◌+◌, ℤ, pos, Option, none, some, List, [], ◌∷◌, Bytes, if◌then◌else◌, ltb_ℤ, add64,
  sub64, mul64, quotient, length, int_eq, bytes_eq, nat_eq, pair_eq,
}
use little_cex.Store.{Table}
use little_cex.Fund.Balances.{BalanceKey, BalanceRecord, add_available}
use little_cex.Futures.Spec.{precision}
use little_cex.Futures.Position.{Position, is_empty}
use little_cex.Futures.Positions.{PositionStore, save, list_by_symbol}

pub data SettleError : Type 0 where
  in_progress not_expired not_settling no_price balance_error position_error list_error
        contract_error :
      SettleError

-- The two tables that a settlement writes.
pub record Books (Bal Pos : Type 0) : Type 0 where
  pub balances : Bal
  pub positions : Pos

-- The profit of a position at the settlement price, and what its user is paid: the margin with the
-- profit, and nothing where the loss exceeds the margin.
unfoldable pub settlement_pnl : Position → ℤ → ℤ
settlement_pnl p price = quotient (mul64 (sub64 price p.entry_price) p.size) precision

unfoldable pub settlement_amount : Position → ℤ → ℤ
settlement_amount p price =
    let amount = add64 p.margin (settlement_pnl p price) in
    if ltb_ℤ amount (pos 0) then pos 0 else amount

unfoldable pub closed_position : Position → ℤ → Position
closed_position p price = record p {
  realized_pnl = add64 p.realized_pnl (settlement_pnl p price);
  size = pos 0;
  margin = pos 0;
}

abbrev pub first_error : Option SettleError → Option SettleError → Option SettleError
first_error (some e) _ = some e
first_error none o = o

abbrev pub one_more : Option SettleError → ℕ → ℕ
one_more none n = n + 1
one_more (some _) n = n

module _ {Bal Pos : Type 0} (table : Table BalanceKey BalanceRecord Bal)
    (store : PositionStore Pos) where
  abbrev pub Settled : Type 0
  Settled = Option SettleError × Books Bal Pos

  unfoldable pub save_closed : Position → ℤ → Books Bal Pos → Settled
  save_closed p price b =
      let (done, positions) = save store (closed_position p price) b.positions in
      (if done then none else some position_error, record b { positions = positions })

  unfoldable pub settle_position : Bytes → Position → ℤ → Books Bal Pos → Settled
  settle_position currency p price b =
      if ltb_ℤ (pos 0) (settlement_amount p price)
      then (let (r, balances) =
            add_available table p.user_id currency (settlement_amount p price) b.balances in
          elim r [
            | some _ ↦ (some balance_error, record b { balances = balances })
            | none ↦ save_closed p price (record b { balances = balances })
          ])
      else save_closed p price b

  -- How many positions were settled, and the first error. An error stops no other position.
  unfoldable pub settle_batch :
      Bytes → List Position → ℤ → Books Bal Pos → ℕ × Option SettleError × Books Bal Pos
  settle_batch currency [] price b = (0, none, b)
  settle_batch currency (p ∷ ps) price b =
      if is_empty p
      then settle_batch currency ps price b
      else (let (e, b') = settle_position currency p price b in
          let (n, e', b'') = settle_batch currency ps price b' in
          (one_more e n, first_error e e', b''))

  -- How a loop over the pages ends; the outer `none` means that the fuel ran out.
  abbrev pub PagesEnd : Type 0
  PagesEnd = Option (Option SettleError) × Books Bal Pos

  abbrev after_batch :
      (Books Bal Pos → PagesEnd) → ℕ × Option SettleError × Books Bal Pos → PagesEnd
  after_batch next (n, some e, b) = (some (some e), b)
  after_batch next (n, none, b) = next b

  -- One round of the loop: `next` is the rest of the loop after a page of positions.
  unfoldable pub settle_page :
      (List Position → Books Bal Pos → PagesEnd)
      → Bytes
      → ℤ
      → Option (List Position)
      → Books Bal Pos
      → PagesEnd
  settle_page next currency price none b = (some (some list_error), b)
  settle_page next currency price (some []) b = (some none, b)
  settle_page next currency price (some (p ∷ ps)) b =
      after_batch (next (p ∷ ps)) (settle_batch currency (p ∷ ps) price b)

  -- The loop of settleAllPositions, with fuel.
  unfoldable pub settle_pages : ℕ → ℕ → Bytes → Bytes → ℤ → ℕ → Books Bal Pos → PagesEnd
  settle_pages zero size symbol currency price offset b = (none, b)
  settle_pages (suc fuel) size symbol currency price offset b =
      settle_page (λ ps. settle_pages fuel size symbol currency price (offset + length ps)) currency
        price (list_by_symbol store symbol size offset b.positions) b
