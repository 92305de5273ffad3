-- ===== src/Futures/Tests/Settlements.antt =====
-- Runs of the settlement of a contract.
use little_cex.Prelude.{
  ◌≤◌, length, ◌≡◌, ◌≢◌, refl, pos, negsuc, ◌+ℤ◌, ◌-ℤ◌, ◌*ℤ◌, none, some, List, [], ◌∷◌, arith,
  add64, sub64, mul64, quotient, wrap64, int_eq, bytes_eq, nat_eq, lookup, insert, pair_eq,
}
use little_cex.Store.Memory.{memory_table, memory_table-IsTable}
use little_cex.Fund.Balances.{add_available}
use little_cex.Futures.Position.{Position, is_empty}
use little_cex.Futures.Positions.{open_positions, list_by_symbol, save}
use little_cex.Futures.Positions.Memory.{memory_store, memory_store-IsPositionStore}
use little_cex.Futures.Settlement.{
  Books, settle_pages, settle_page, settle_position, settlement_amount, save_closed, settlement_pnl,
  closed_position, settle_batch,
}
use little_cex.Futures.Settlement.Skipped.{settle_pages-skips}
use little_cex.Futures.Settlement.Lists.{Distinct}
use little_cex.Futures.Settlement.Ends.{settle_pages_end, settle_pages-settles}
use little_cex.Futures.Settlement.Payout.{IsPaid, settle_position-IsPaid}
use little_cex.Futures.Tests.Data.{usdt, btc, Accounts, balances, accounts, position}

-- Two users with an open position each.
abbrev books : Books Accounts (List Position)
books = record { balances = accounts; positions = position 7 (pos 3) ∷ position 8 (negsuc 1) ∷ [] }

opened :
    open_positions memory_store btc books.positions
    ≡ position 7 (pos 3) ∷ position 8 (negsuc 1) ∷ []
unfolding memory_store is_empty
opened = refl

all_settled : (settle_pages balances memory_store 3 10 btc usdt (pos 100) 0 books).0 ≡ some none
unfolding settle_pages settle_page memory_store memory_table list_by_symbol is_empty settle_batch
    settle_position settlement_amount add64 wrap64 ◌+ℤ◌ settlement_pnl quotient mul64 ◌*ℤ◌ sub64
    ◌-ℤ◌ add_available save_closed save closed_position insert lookup
all_settled = refl

settle_pages_end_example :
    (settle_pages balances memory_store 3 1 btc usdt (pos 100) 0 books).0 ≢ none
settle_pages_end_example =
    settle_pages_end balances memory_store memory_store-IsPositionStore btc usdt (pos 100) 3 1 0
      books (omega arith) (rw opened (omega arith))

settle_pages-settles_example :
    open_positions memory_store btc
      (settle_pages balances memory_store 3 10 btc usdt (pos 100) 0 books).1.positions
    ≡ []
settle_pages-settles_example =
    settle_pages-settles balances memory_store memory_store-IsPositionStore btc usdt (pos 100) 2 10
      books (rw opened (omega arith)) all_settled

one_each : Distinct (open_positions memory_store btc books.positions)
one_each = rw opened ((refl, tt), (tt, tt))

settle_pages-skips_example :
    1
    ≤ length (
        open_positions memory_store btc
          (settle_pages balances memory_store 3 1 btc usdt (pos 100) 0 books).1.positions)
settle_pages-skips_example =
    settle_pages-skips balances memory_store memory_store-IsPositionStore btc usdt (pos 100) 3 1 1
      books one_each (omega arith) (rw opened (omega arith))

pays : (settle_position balances memory_store usdt (position 7 (pos 3)) (pos 100) books).0 ≡ none
unfolding memory_store memory_table list_by_symbol is_empty settle_batch settle_position
    settlement_amount add64 wrap64 ◌+ℤ◌ settlement_pnl quotient mul64 ◌*ℤ◌ sub64 ◌-ℤ◌ add_available
    save_closed save closed_position insert lookup
pays = refl

settle_position-IsPaid_example :
    IsPaid balances memory_store memory_table-IsTable memory_store-IsPositionStore usdt
      (pos 100)
      (position 7 (pos 3))
      books
      (settle_position balances memory_store usdt (position 7 (pos 3)) (pos 100) books).1
settle_position-IsPaid_example =
    settle_position-IsPaid balances memory_store memory_table-IsTable memory_store-IsPositionStore
      usdt (pos 100) (position 7 (pos 3)) books pays
