-- ===== src/Futures/Settlement/Removed.antt =====
-- What a page that ends well takes out of the open positions (settleBatch and settlePosition of
-- pkg/futures/settlement.go).
use little_cex.Prelude.{
  ◌≡◌, inl, inr, ◌∙◌, refl, sym, ap, ℤ, true, false, Option, none, some, List, [], ◌∷◌, Bytes,
  arith, Option-cases, int_eq, bytes_eq, nat_eq, pair_eq, bytes_beq_iff,
}
use little_cex.Store.{Table}
use little_cex.Fund.Balances.{BalanceKey, BalanceRecord}
use little_cex.Futures.Position.{Position, is_empty}
use little_cex.Futures.Positions.{PositionStore, IsPositionStore, save, open_positions, is_open_in}
use little_cex.Futures.Positions.Open.{without, save-removes}
use little_cex.Futures.Settlement.{
  SettleError, first_error, Books, settle_batch, settle_page, after_batch, PagesEnd,
  settle_position, save_closed, closed_position,
}
use little_cex.Futures.Settlement.Lists.{Listed, without_all}

both_none : (a b : Option SettleError) → first_error a b ≡ none → (a ≡ none) × (b ≡ none)
both_none none b h = (refl, h)
both_none (some e) b h = absurd (ground arith)

module _ {Bal Pos : Type 0} (table : Table BalanceKey BalanceRecord Bal) (store : PositionStore Pos)
    (law : IsPositionStore store) (symbol currency : Bytes) (price : ℤ) where
  pub as_its :
      (p : Position)
      → symbol ≡ p.symbol
      → (d : Pos) → open_positions store symbol d ≡ open_positions store p.symbol d
  as_its p s d = ap (λ (z : Bytes). open_positions store z d) s

  pub settled_saved :
      (p : Position) (b : Books Bal Pos)
      → (settle_position table store currency p price b).0 ≡ none
      → ((save store (closed_position p price) b.positions).0 ≡ true)
        × ((settle_position table store currency p price b).1.positions
            ≡ (save store (closed_position p price) b.positions).1)
  unfolding settle_position save_closed
  settled_saved p b done = ground arith

  -- A position that was settled without an error is out of the open ones.
  position_removed :
      (p : Position) (b : Books Bal Pos)
      → is_open_in symbol p ≡ true
      → (settle_position table store currency p price b).0 ≡ none
      → open_positions store symbol (settle_position table store currency p price b).1.positions
        ≡ without p.user_id (open_positions store symbol b.positions)
  unfolding closed_position is_empty
  position_removed p b o done =
      let s : symbol ≡ p.symbol = (bytes_beq_iff symbol p.symbol).0 (ground arith) in
      let (saved, at) = settled_saved p b done in
      ap (λ (d : Pos). open_positions store symbol d) at
      ∙ as_its p s (save store (closed_position p price) b.positions).1
      ∙ save-removes store law (closed_position p price) b.positions refl saved
      ∙ ap (without p.user_id) (sym (as_its p s b.positions))

  -- A page that was settled without an error is out of the open positions.
  pub batch_removed :
      (ps : List Position) (b : Books Bal Pos)
      → Listed symbol ps
      → (settle_batch table store currency ps price b).1 ≡ none
      → open_positions store symbol (settle_batch table store currency ps price b).2.positions
        ≡ without_all ps (open_positions store symbol b.positions)
  unfolding settle_batch
  batch_removed [] b l done = refl
  batch_removed (p ∷ ps) b l done =
      let open_size : is_empty p ≡ false = ground arith in
      let (first, others) = both_none _ _ (rw open_size at done) in
      rw open_size (
        batch_removed ps (settle_position table store currency p price b).1 l.1 others
        ∙ ap (without_all ps) (position_removed p b l.0 first))

  -- A loop that ends well went on from a page that ended well.
  pub page_done :
      (next : List Position → Books Bal Pos → PagesEnd table store) (p : Position)
      (ps : List Position) (b : Books Bal Pos)
      → (settle_page table store next currency price (some (p ∷ ps)) b).0 ≡ some none
      → ((settle_batch table store currency (p ∷ ps) price b).1 ≡ none)
        × (settle_page table store next currency price (some (p ∷ ps)) b
            ≡ next (p ∷ ps) (settle_batch table store currency (p ∷ ps) price b).2)
  unfolding settle_page
  page_done next p ps b done =
      elim (Option-cases (settle_batch table store currency (p ∷ ps) price b).1) [
        | inl e ↦ (e, rw (e, after_batch) refl)
        | inr (err, e) ↦
            let wrong : ◌≡◌ {A = Option (Option SettleError)} (some (some err)) (some none) =
              rw (e, after_batch) at done in
            absurd (cc)
      ]
