-- ===== src/Futures/Tests/Funds.antt =====
-- Runs of the insurance fund and of funding.
use mathlib.Core.List.Permᴰ
use little_cex.Prelude.{
  take, drop, ℕ, ◌<◌, ◌≡◌, refl, pos, negsuc, ◌+ℤ◌, false, none, some, List, [], ◌∷◌, arith, length,
  int_eq, bytes_eq, nat_eq, lookup, ascii, pair_eq,
}
use little_cex.Futures.Position.{Position, is_empty}
use little_cex.Futures.Positions.{open_positions, is_open_in}
use little_cex.Futures.Positions.Memory.{memory_store}
use little_cex.Futures.Insurance.{InsuranceFund, add_funds, cover_bankruptcy}
use little_cex.Futures.Insurance.Entries.{IsBacked}
use little_cex.Futures.Insurance.Backed.{Reach, here, next, add, cover, Reach-IsBacked}
use little_cex.Futures.Funding.{fund_page, fund_pages}
use little_cex.Futures.Funding.Pages.{fund_pages-eq-fund_page}
use little_cex.Futures.Tests.Data.{usdt, btc, contracts, balances, accounts, position}

abbrev empty_fund : InsuranceFund
empty_fund = record { rows = []; logs = []; balance_cache = []; fails = λ n. false }

empty_fund-IsBacked : IsBacked empty_fund
unfolding lookup
empty_fund-IsBacked = record {
  backed = λ k. refl;
  not_negative = λ k. omega arith;
  in_range = λ k. omega arith;
}

abbrev funded : InsuranceFund
funded = (add_funds usdt (pos 500) (ascii "DEPOSIT") (pos 0) btc [] empty_fund).1

-- The fund gets 500 and covers what it can of a loss of 700.
fund_run : Reach empty_fund (cover_bankruptcy usdt (pos 700) (pos 7) btc funded).1.1
unfolding lookup ◌+ℤ◌
fund_run =
    next (next here (add usdt (pos 500) (ascii "DEPOSIT") (pos 0) btc [] (omega arith)))
      (cover usdt (pos 700) (pos 7) btc)

Reach-IsBacked_example : IsBacked (cover_bankruptcy usdt (pos 700) (pos 7) btc funded).1.1
Reach-IsBacked_example = Reach-IsBacked fund_run empty_fund-IsBacked

abbrev holders : List Position
holders = position 7 (pos 3) ∷ position 8 (pos 0) ∷ position 9 (negsuc 1) ∷ []

two_open : length (open_positions memory_store btc holders) < 3
unfolding memory_store is_empty
two_open = omega arith

-- The store in memory answers every read from the order of its rows.
one_order :
    (limit offset : ℕ)
    → memory_store.find (is_open_in btc) limit offset holders
      ≡ some (take limit (drop offset (open_positions memory_store btc holders)))
unfolding memory_store
one_order limit offset = refl

fund_pages-eq-fund_page_example :
    fund_pages contracts balances memory_store 3 1 btc usdt (pos 10) (pos 100) 0 holders accounts
    ≡ (
      some none,
      fund_page contracts balances memory_store usdt
          (pos 10)
          (pos 100)
          (open_positions memory_store btc holders)
          accounts,
    )
fund_pages-eq-fund_page_example =
    fund_pages-eq-fund_page contracts balances memory_store btc usdt (pos 10) (pos 100) holders
      (open_positions memory_store btc holders)
      (Permᴰ.refl (open_positions memory_store btc holders)) one_order 3 0 accounts two_open
