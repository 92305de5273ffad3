-- ===== src/Futures/Settlement/Skipped.antt =====
-- What the pages of a settlement pass over (settleAllPositions of pkg/futures/settlement.go): a page is
-- read with an offset into the positions that are still open, and settling closes them.
use little_cex.Prelude.{
  ℕ, zero, suc, ◌+◌, ◌-◌, ◌≤◌, ◌≡◌, inl, inr, ◌∙◌, refl, sym, ap, subst, ℤ, pos, true, Option, none,
  some, List, [], ◌∷◌, Bytes, ltb_ℤ, arith, Bool-cases, Option-cases, length, int_eq, bytes_eq,
  nat_eq, drop, pair_eq, bytes_beq_iff,
}
use little_cex.Store.{Table}
use little_cex.Fund.Balances.{BalanceKey, BalanceRecord, add_available}
use little_cex.Futures.Position.{Position, is_empty}
use little_cex.Futures.Positions.{
  PositionStore, IsPositionStore, save, open_positions, list_by_symbol, is_open_in,
}
use little_cex.Futures.Positions.Open.{without, save-closed}
use little_cex.Futures.Settlement.{
  Books, settle_pages, settle_batch, settle_page, after_batch, PagesEnd, settle_position,
  save_closed, closed_position, settlement_amount,
}
use little_cex.Futures.Settlement.Removed.{as_its}
use little_cex.Futures.Settlement.Lists.{
  Distinct, Listed, Listed-filter, Listed-take, Listed-drop, Listed-Permᴰ, length-Permᴰ,
  Distinct-without, length-without_one, length-take_le, length-take_full, length-drop,
}

module _ {Bal Pos : Type 0} (table : Table BalanceKey BalanceRecord Bal) (store : PositionStore Pos)
    (law : IsPositionStore store) (symbol currency : Bytes) (price : ℤ) where
  abbrev opened : Books Bal Pos → List Position
  opened b = open_positions store symbol b.positions

  -- Every user has one open position of the contract at most, and `k` are open at least.
  abbrev Holds : ℕ → Books Bal Pos → Type 0
  Holds k b = Distinct (opened b) × (k ≤ length (opened b))

  -- At most one position is closed.
  save-Holds :
      (p : Position) (k : ℕ) (b : Books Bal Pos)
      → is_empty p ≡ true
      → symbol ≡ p.symbol
      → Holds (k + 1) b
      → Holds k (record b { positions = (save store p b.positions).1 })
  save-Holds p k b e s (u, n) =
      let at = as_its table store law symbol currency price p s in
      elim (save-closed store law p b.positions e) [
        | inl same ↦
            let kept : open_positions store symbol (save store p b.positions).1 ≡ opened b =
              at (save store p b.positions).1 ∙ same ∙ sym (at b.positions) in
            rw kept (u, omega arith)
        | inr gone ↦
            let left : open_positions store symbol (save store p b.positions).1
                ≡ without p.user_id (opened b) =
              at (save store p b.positions).1
              ∙ gone
              ∙ ap (without p.user_id) (sym (at b.positions)) in
            rw left (
              Distinct-without p.user_id (opened b) u,
              omega (arith, length-without_one p.user_id (opened b) u),
            )
      ]

  less-Holds : (k : ℕ) (b : Books Bal Pos) → Holds (k + 1) b → Holds k b
  less-Holds k b (u, n) = (u, omega arith)

  position-Holds :
      (p : Position) (k : ℕ) (b : Books Bal Pos)
      → is_open_in symbol p ≡ true
      → Holds (k + 1) b
      → Holds k (settle_position table store currency p price b).1
  unfolding settle_position save_closed closed_position is_empty
  position-Holds p k b o h =
      let s : symbol ≡ p.symbol = (bytes_beq_iff symbol p.symbol).0 (ground arith) in
      elim (Bool-cases (ltb_ℤ (pos 0) (settlement_amount p price))) [
        | inl t ↦
            rw t
              (elim (Option-cases
                (add_available table p.user_id currency (settlement_amount p price) b.balances).0) [
                  | inl ok ↦ rw ok (
                      save-Holds (closed_position p price) k
                        (record b {
                          balances =
                              (add_available table p.user_id currency (settlement_amount p price)
                                b.balances).1;
                        })
                        refl s h)
                  | inr (e, bad) ↦ rw bad (less-Holds k b h)
                ])
        | inr t ↦ rw t (save-Holds (closed_position p price) k b refl s h)
      ]

  batch-Holds :
      (ps : List Position) (k : ℕ) (b : Books Bal Pos)
      → Listed symbol ps
      → Holds (k + length ps) b
      → Holds k (settle_batch table store currency ps price b).2
  unfolding settle_batch
  batch-Holds [] k b o (u, n) = (u, omega arith)
  batch-Holds (p ∷ ps) k b o (u, n) = elim (Bool-cases (is_empty p)) [
    | inl t ↦ rw t (batch-Holds ps k b o.1 (u, omega arith))
    | inr t ↦ rw t (
        batch-Holds ps k (settle_position table store currency p price b).1 o.1
          (position-Holds p (k + length ps) b o.0 (u, omega arith)))
  ]

  -- What a page may be: an error, or open positions, no more than there are behind the offset, and
  -- as many as a page holds where there are that many.
  abbrev Found : ℕ → ℕ → Books Bal Pos → Option (List Position) → Type 0
  Found size offset b none = Unit
  Found size offset b (some l) =
      Listed symbol l
      × (length l ≤ length (opened b) - offset)
      × (offset + size ≤ length (opened b) → length l ≡ size)

  found :
      (size offset : ℕ) (b : Books Bal Pos)
      → Found size offset b (list_by_symbol store symbol size offset b.positions)
  unfolding list_by_symbol
  found size offset b = elim (law.find_lem (is_open_in symbol) size offset b.positions) [
    | inl e ↦ rw e tt
    | inr (order, same, e) ↦ rw e (
      Listed-take symbol size _ (
          Listed-drop symbol offset _
            (Listed-Permᴰ symbol same (Listed-filter symbol (store.rows b.positions)))),
      omega (
        arith,
        length-take_le size (drop offset order),
        length-drop offset order,
        length-Permᴰ same,
      ),
      λ h.
          length-take_full size (drop offset order)
            (omega (arith, length-drop offset order, length-Permᴰ same)),
    )
  ]

  page-Holds :
      (next : List Position → Books Bal Pos → PagesEnd table store) (k : ℕ)
      (o : Option (List Position)) (b : Books Bal Pos)
      → ((p : Position) (ps : List Position) (c : Books Bal Pos)
          → o ≡ some (p ∷ ps)
          → Holds k c
          → Holds k (next (p ∷ ps) c).1)
      → Holds k b
      → ((p : Position) (ps : List Position)
          → o ≡ some (p ∷ ps)
          → Listed symbol (p ∷ ps) × Holds (k + length (p ∷ ps)) b)
      → Holds k (settle_page table store next currency price o b).1
  unfolding settle_page
  page-Holds next k none b keep h f = h
  page-Holds next k (some []) b keep h f = h
  page-Holds next k (some (p ∷ ps)) b keep h f =
      let (listed, enough) = f p ps refl in
      let after : Holds k (settle_batch table store currency (p ∷ ps) price b).2 =
        batch-Holds (p ∷ ps) k b listed enough in
      elim (Option-cases (settle_batch table store currency (p ∷ ps) price b).1) [
        | inl e ↦ rw (e, after_batch) (keep p ps _ refl after)
        | inr (err, e) ↦ rw (e, after_batch) after
      ]

  enough_left :
      (size offset k : ℕ) (b : Books Bal Pos) (p : Position) (ps : List Position)
      → k ≤ offset
      → Holds k b
      → Found size offset b (some (p ∷ ps))
      → Listed symbol (p ∷ ps) × Holds (k + length (p ∷ ps)) b
  enough_left size offset k b p ps o (u, n) (listed, few, _) = (listed, (u, omega arith))

  -- Behind an offset of `k`, the pages leave `k` open.
  pages-Holds :
      (fuel size offset k : ℕ) (b : Books Bal Pos)
      → k ≤ offset
      → Holds k b
      → Holds k (settle_pages table store fuel size symbol currency price offset b).1
  unfolding settle_pages
  pages-Holds zero size offset k b o h = h
  pages-Holds (suc fuel) size offset k b o h =
      page-Holds _ k (list_by_symbol store symbol size offset b.positions) b
        (λ p ps c e. pages-Holds fuel size (offset + length (p ∷ ps)) k c (omega arith)) h
        (λ p ps e.
          enough_left size offset k b p ps o h
            (subst (Found size offset b) e (found size offset b)))

  -- Where each user has one open position of the contract, and a page of them and `k` more are open,
  -- `k` being no more than a page, a settlement leaves at least `k` of them open, however it ends
  -- and in whatever order the database lists them.
  pub settle_pages-skips :
      (fuel size k : ℕ) (b : Books Bal Pos)
      → Distinct (open_positions store symbol b.positions)
      → k ≤ size
      → size + k ≤ length (open_positions store symbol b.positions)
      → k
        ≤ length (
            open_positions store symbol
              (settle_pages table store fuel size symbol currency price 0 b).1.positions)
  unfolding settle_pages
  settle_pages-skips zero size k b u small many = omega arith
  settle_pages-skips (suc fuel) size k b u small many =
      (page-Holds _ k (list_by_symbol store symbol size 0 b.positions) b
        (λ p ps c e h.
          pages-Holds fuel size (0 + length (p ∷ ps)) k c
            (omega (arith, (whole p ps e).2 (omega arith))) h)
        (u, omega arith)
        (λ p ps e. ((whole p ps e).0, (u, omega (arith, (whole p ps e).2 (omega arith)))))).1
    where
      whole :
          (p : Position) (ps : List Position)
          → list_by_symbol store symbol size 0 b.positions ≡ some (p ∷ ps)
          → Found size 0 b (some (p ∷ ps))
      whole p ps e = subst (Found size 0 b) e (found size 0 b)
