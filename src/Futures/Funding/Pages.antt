-- ===== src/Futures/Funding/Pages.antt =====
-- The pages of a funding settlement are all the open positions, once each, since paying for a position
-- does not close it, if the reads agree on an order (settleFunding of pkg/futures/funding.go).
use mathlib.Core.List.{Permᴰ}
use little_cex.Prelude.{
  ℕ, zero, suc, ◌+◌, ◌-◌, ◌<◌, ◌≡◌, ◌∙◌, refl, sym, ap, ℤ, none, some, List, [], ◌∷◌, Bytes, arith,
  length, int_eq, bytes_eq, nat_eq, take, drop, pair_eq,
}
use little_cex.Store.{Table}
use little_cex.Fund.Balances.{BalanceKey, BalanceRecord}
use little_cex.Futures.Spec.{ContractSpec}
use little_cex.Futures.Position.{Position}
use little_cex.Futures.Positions.{PositionStore, open_positions, list_by_symbol, is_open_in}
use little_cex.Futures.Settlement.Lists.{drop_none, length-drop, length-Permᴰ}
use little_cex.Futures.Funding.{fund_page, fund_pages, fund_round}

drop_add : (a b : ℕ) (l : List Position) → drop (a + b) l ≡ drop b (drop a l)
drop_add zero b l = ap (λ (n : ℕ). drop n l) (omega arith)
drop_add (suc a) b [] = drop_none (suc a + b) ∙ sym (drop_none b)
drop_add (suc a) b (p ∷ ps) =
    ap (λ (n : ℕ). drop n (p ∷ ps)) {x = suc a + b} {y = suc (a + b)} (omega arith)
    ∙ drop_add a b ps

drop_taken : (n : ℕ) (l : List Position) → drop (length (take n l)) l ≡ drop n l
drop_taken zero l = refl
drop_taken (suc n) [] = refl
drop_taken (suc n) (p ∷ ps) = drop_taken n ps

module _ {Con Bal Pos : Type 0} (contracts : Table Bytes ContractSpec Con)
    (balances : Table BalanceKey BalanceRecord Bal) (store : PositionStore Pos)
    (symbol currency : Bytes) (rate price : ℤ) (d : Pos) (order : List Position)
    (same : Permᴰ order (open_positions store symbol d))
    (reads : (limit offset : ℕ)
      → store.find (is_open_in symbol) limit offset d ≡ some (take limit (drop offset order))) where
  page_then_rest :
      (n : ℕ) (l : List Position) (b : Bal)
      → fund_page contracts balances store currency rate price
          (drop n l)
          (fund_page contracts balances store currency rate price (take n l) b)
        ≡ fund_page contracts balances store currency rate price l b
  unfolding fund_page
  page_then_rest zero l b = refl
  page_then_rest (suc n) [] b = refl
  page_then_rest (suc n) (p ∷ ps) b = page_then_rest n ps _

  fund_nothing : (b : Bal) → fund_page contracts balances store currency rate price [] b ≡ b
  unfolding fund_page
  fund_nothing b = refl

  pages_from :
      (fuel size offset : ℕ) (b : Bal)
      → 0 < fuel
      → length order < fuel + offset
      → fund_pages contracts balances store fuel (suc size) symbol currency rate price offset d b
        ≡ (some none, fund_page contracts balances store currency rate price (drop offset order) b)
  unfolding fund_pages fund_round list_by_symbol
  pages_from zero size offset b h k = absurd (omega arith)
  pages_from (suc fuel) size offset b h k =
      rw (reads (suc size) offset) (go (λ o c. pages_from fuel size o c) (drop offset order) refl)
    where
      go :
          ((o : ℕ) (c : Bal)
            → 0 < fuel
            → length order < fuel + o
            → fund_pages contracts balances store fuel (suc size) symbol currency rate price o d c
              ≡ (
                some none,
                fund_page contracts balances store currency rate price (drop o order) c,
              ))
          → (l : List Position) → drop offset order ≡ l
          → fund_round contracts balances store
              (λ ps.
                fund_pages contracts balances store fuel
                  (suc size)
                  symbol
                  currency
                  rate
                  price
                  (offset + length ps)
                  d)
              currency
              rate
              price
              (some (take (suc size) l))
              b
            ≡ (some none, fund_page contracts balances store currency rate price l b)
      go on [] e = ap (λ (x : Bal). (some none, x)) (sym (fund_nothing b))
      go on (p ∷ ps) e =
          let more : suc (length ps) ≡ length order - offset =
            sym (ap length e) ∙ length-drop offset order in
          let left : drop (offset + length (p ∷ take size ps)) order ≡ drop size ps =
            drop_add offset (length (p ∷ take size ps)) order
            ∙ ap (drop (length (p ∷ take size ps))) e
            ∙ drop_taken size ps in
          on (offset + length (p ∷ take size ps)) _ (omega arith) (omega arith)
          ∙ ap (λ (x : Bal). (some none, x))
              (ap
                  (λ (l : List Position).
                    fund_page contracts balances store currency rate price l
                      (fund_page contracts balances store currency rate price (p ∷ take size ps) b))
                  left
                ∙ page_then_rest (suc size) (p ∷ ps) b)

  -- Where every read of the open positions of the contract is answered, and from one order of them, which
  -- the query does not ask for, and the fuel is more than their number, a funding settlement comes to
  -- its end: it has handled each of them once, in that order, however large its pages are.
  pub fund_pages-eq-fund_page :
      (fuel size : ℕ) (b : Bal)
      → length (open_positions store symbol d) < fuel
      → fund_pages contracts balances store fuel (suc size) symbol currency rate price 0 d b
        ≡ (some none, fund_page contracts balances store currency rate price order b)
  fund_pages-eq-fund_page fuel size b k =
      pages_from fuel size 0 b (omega arith) (omega (arith, length-Permᴰ same))
