-- ===== src/Futures/Settlement/Ends.antt =====
-- A settlement comes to an end, and one page settles every position that it holds
-- (settleAllPositions of pkg/futures/settlement.go).
use little_cex.Prelude.{
  ℕ, zero, suc, ◌+◌, ◌≤◌, ◌<◌, ◌≡◌, ◌≢◌, inl, inr, ◌∙◌, refl, sym, ap, ℤ, true, Option, none, some,
  List, [], ◌∷◌, Bytes, arith, Bool-cases, Option-cases, length, int_eq, bytes_eq, nat_eq, take,
  drop, pair_eq, bytes_beq_iff,
}
use little_cex.Store.{Table}
use little_cex.Fund.Balances.{BalanceKey, BalanceRecord}
use little_cex.Futures.Position.{Position, is_empty}
use little_cex.Futures.Positions.{
  PositionStore, IsPositionStore, save, open_positions, list_by_symbol, is_open_in,
}
use little_cex.Futures.Positions.Open.{save-closed}
use little_cex.Futures.Settlement.{
  SettleError, list_error, Books, settle_pages, settle_batch, settle_page, after_batch, PagesEnd,
  settle_position, save_closed, closed_position,
}
use little_cex.Futures.Settlement.Removed.{as_its, batch_removed, page_done}
use little_cex.Futures.Settlement.Lists.{
  Listed, Listed-filter, Listed-take, Listed-drop, Listed-Permᴰ, length-Permᴰ, length-without,
  Covered, Covered-Permᴰ, without_all-Covered, take_all, take_none,
}

drop_beyond : (n : ℕ) (l : List Position) → length l ≤ n → drop n l ≡ []
drop_beyond zero [] h = refl
drop_beyond zero (p ∷ ps) h = absurd (omega arith)
drop_beyond (suc n) [] h = refl
drop_beyond (suc n) (p ∷ ps) h = drop_beyond n ps (omega arith)

module _ {Bal Pos : Type 0} (table : Table BalanceKey BalanceRecord Bal) (store : PositionStore Pos)
    (law : IsPositionStore store) (symbol currency : Bytes) (price : ℤ) where
  abbrev open_count : Books Bal Pos → ℕ
  open_count b = length (open_positions store symbol b.positions)

  save_shrinks :
      (p : Position) (b : Books Bal Pos)
      → is_empty p ≡ true
      → symbol ≡ p.symbol
      → length (open_positions store symbol (save store p b.positions).1) ≤ open_count b
  save_shrinks p b e s =
      let at = as_its table store law symbol currency price p s in
      elim (save-closed store law p b.positions e) [
        | inl same ↦
            omega (arith, ap length (at (save store p b.positions).1 ∙ same ∙ sym (at b.positions)))
        | inr gone ↦ omega (
          arith,
          ap length (at (save store p b.positions).1 ∙ gone),
          ap length (at b.positions),
          length-without p.user_id (open_positions store p.symbol b.positions),
        )
      ]

  position_shrinks :
      (p : Position) (b : Books Bal Pos)
      → is_open_in symbol p ≡ true
      → open_count (settle_position table store currency p price b).1 ≤ open_count b
  unfolding settle_position save_closed closed_position is_empty
  position_shrinks p b o =
      let s : symbol ≡ p.symbol = (bytes_beq_iff symbol p.symbol).0 (ground arith) in
      let less = save_shrinks (closed_position p price) b refl s in ground (arith, less)

  batch_shrinks :
      (ps : List Position) (b : Books Bal Pos)
      → Listed symbol ps
      → open_count (settle_batch table store currency ps price b).2 ≤ open_count b
  unfolding settle_batch
  batch_shrinks [] b l = omega arith
  batch_shrinks (p ∷ ps) b l = elim (Bool-cases (is_empty p)) [
    | inl t ↦ rw t (batch_shrinks ps b l.1)
    | inr t ↦ rw t (
        omega (
          arith,
          batch_shrinks ps (settle_position table store currency p price b).1 l.1,
          position_shrinks p b l.0,
        ))
  ]

  -- What a page may be: an error, or part of the open positions, none beyond their end.
  abbrev Found : ℕ → Books Bal Pos → Option (List Position) → Type 0
  Found offset b none = Unit
  Found offset b (some l) = Listed symbol l × (open_count b ≤ offset → l ≡ [])

  found :
      (size offset : ℕ) (b : Books Bal Pos)
      → Found offset b (list_by_symbol store symbol size offset b.positions)
  unfolding list_by_symbol
  found size offset b = elim (law.find_lem (is_open_in symbol) size offset b.positions) [
    | inl e ↦ rw e tt
    | inr (order, same, e) ↦ rw e (
      Listed-take symbol size _ (
          Listed-drop symbol offset _
            (Listed-Permᴰ symbol same (Listed-filter symbol (store.rows b.positions)))),
      λ h.
          ap (take size) (drop_beyond offset order (omega (arith, length-Permᴰ same)))
          ∙ take_none size,
    )
  ]

  page_ends :
      (next : List Position → Books Bal Pos → PagesEnd table store) (fuel offset : ℕ)
      (o : Option (List Position)) (b : Books Bal Pos)
      → Found offset b o
      → open_count b < suc fuel + offset
      → ((p : Position) (ps : List Position) (c : Books Bal Pos)
          → 0 < fuel
          → open_count c < fuel + (offset + length (p ∷ ps))
          → (next (p ∷ ps) c).0 ≢ none)
      → (settle_page table store next currency price o b).0 ≢ none
  unfolding settle_page
  page_ends next fuel offset none b f h k = λ e. cc
  page_ends next fuel offset (some []) b f h k = λ e. cc
  page_ends next fuel offset (some (p ∷ ps)) b f h k =
      elim (Option-cases (settle_batch table store currency (p ∷ ps) price b).1) [
        | inl e ↦
            rw (e, after_batch)
              (k p ps _ (ground (arith, f.1)) (omega (arith, batch_shrinks (p ∷ ps) b f.0)))
        | inr (err, e) ↦ rw (e, after_batch) (λ w. cc)
      ]

  -- The loop over the pages comes to an end: its fuel does not run out where it is more than the
  -- number of positions that are open, whatever fails.
  pub settle_pages_end :
      (fuel size offset : ℕ) (b : Books Bal Pos)
      → 0 < fuel
      → open_count b < fuel + offset
      → (settle_pages table store fuel size symbol currency price offset b).0 ≢ none
  unfolding settle_pages
  settle_pages_end zero size offset b p h = absurd (omega arith)
  settle_pages_end (suc fuel) size offset b p h =
      page_ends _ fuel offset _ b (found size offset b) h
        (λ q qs c pos less. settle_pages_end fuel size (offset + length (q ∷ qs)) c pos less)

  -- Where no position is open, the loop goes no further.
  none_open :
      (fuel size offset : ℕ) (b : Books Bal Pos)
      → open_positions store symbol b.positions ≡ []
      → open_positions store symbol
          (settle_pages table store fuel size symbol currency price offset b).1.positions
        ≡ []
  unfolding settle_pages settle_page
  none_open zero size offset b h = h
  none_open (suc fuel) size offset b h =
      go (list_by_symbol store symbol size offset b.positions) (found size offset b)
    where
      go :
          (o : Option (List Position))
          → Found offset b o
          → open_positions store symbol
              (settle_page table store
                (λ ps.
                  settle_pages table store fuel size symbol currency price (offset + length ps))
                currency
                price
                o
                b).1.positions
            ≡ []
      go none f = h
      go (some []) f = h
      go (some (p ∷ ps)) f = absurd (ground (arith, f.1 (omega (arith, ap length h))))

  -- The first page of a loop that ends well, which is one order of all the positions that are open.
  whole_page :
      (fuel size : ℕ) (b : Books Bal Pos) (order : List Position)
      → Listed symbol order
      → Covered order (open_positions store symbol b.positions)
      → (settle_page table store
          (λ ps. settle_pages table store fuel size symbol currency price (0 + length ps))
          currency
          price
          (some order)
          b).0
        ≡ some none
      → open_positions store symbol
          (settle_page table store
            (λ ps. settle_pages table store fuel size symbol currency price (0 + length ps))
            currency
            price
            (some order)
            b).1.positions
        ≡ []
  unfolding settle_page
  whole_page fuel size b [] l c done =
      without_all-Covered [] (open_positions store symbol b.positions) c
  whole_page fuel size b (p ∷ ps) l c done =
      let (ok, on) =
        page_done table store law symbol currency price
          (λ qs. settle_pages table store fuel size symbol currency price (0 + length qs)) p ps b
          done in
      rw on (
        none_open fuel size (0 + length (p ∷ ps))
          (settle_batch table store currency (p ∷ ps) price b).2
          (batch_removed table store law symbol currency price (p ∷ ps) b l ok
            ∙ without_all-Covered (p ∷ ps) (open_positions store symbol b.positions) c))

  -- Where the open positions of a contract fit on one page, a settlement that ends well has settled
  -- them all, in whatever order the database lists them.
  pub settle_pages-settles :
      (fuel size : ℕ) (b : Books Bal Pos)
      → open_count b ≤ size
      → (settle_pages table store (suc fuel) size symbol currency price 0 b).0 ≡ some none
      → open_positions store symbol
          (settle_pages table store (suc fuel) size symbol currency price 0 b).1.positions
        ≡ []
  unfolding settle_pages list_by_symbol settle_page
  settle_pages-settles fuel size b n done =
      elim (law.find_lem (is_open_in symbol) size 0 b.positions) [
        | inl e ↦
            let wrong : ◌≡◌ {A = Option (Option SettleError)} (some (some list_error)) (some none) =
              rw e at done in
            absurd (cc)
        | inr (order, same, e) ↦
            let all : store.find (is_open_in symbol) size 0 b.positions ≡ some order =
              e ∙ ap some (take_all size order (omega (arith, length-Permᴰ same))) in
            rw all (
              whole_page fuel size b order
                (Listed-Permᴰ symbol same (Listed-filter symbol (store.rows b.positions)))
                (Covered-Permᴰ same) (rw all at done))
      ]
