-- ===== src/Fund/Tests.antt =====
-- Concrete runs of the balances in the database.
use little_cex.Prelude.{
  ◌≡◌, refl, pos, ◌+ℤ◌, false, none, [], Bytes, arith, int_eq, bytes_eq, nat_eq, lookup, insert,
  ascii, pair_eq,
}
use little_cex.Store.{Table}
use little_cex.Store.Memory.{Memory, memory_table, memory_table-IsTable}
use little_cex.Fund.Balances.{
  BalanceKey, BalanceRecord, freeze_balance, unfreeze_balance, fresh_balance,
}
use little_cex.Fund.Balances.Solvent.{Reach, here, next, freeze, IsSolvent, Reach-IsSolvent}
use little_cex.Fund.Balances.Undo.{SameBalances, unfreeze_balance-freeze_balance}

abbrev usdt : Bytes
usdt = ascii "USDT"

abbrev balances : Table BalanceKey BalanceRecord (Memory BalanceKey BalanceRecord)
balances = memory_table

-- One user with 100 available and 20 locked.
abbrev accounts : Memory BalanceKey BalanceRecord
accounts = record {
  content = insert (pos 7, usdt) (fresh_balance (pos 7) usdt (pos 100) (pos 20)) [];
  fails = λ n. false;
}

accounts-IsSolvent : IsSolvent balances accounts
unfolding memory_table lookup insert
accounts-IsSolvent (uid, symbol) = ground arith

abbrev frozen_accounts : Memory BalanceKey BalanceRecord
frozen_accounts = (freeze_balance balances (pos 7) usdt (pos 30) accounts).1

run : Reach balances accounts frozen_accounts
run = next here (freeze (pos 7) usdt (pos 30) (omega arith))

Reach-IsSolvent_example : IsSolvent balances frozen_accounts
Reach-IsSolvent_example = Reach-IsSolvent balances memory_table-IsTable accounts-IsSolvent run

freezes : (freeze_balance balances (pos 7) usdt (pos 30) accounts).0 ≡ none
unfolding freeze_balance memory_table lookup insert
freezes = refl

unfreezes : (unfreeze_balance balances (pos 7) usdt (pos 30) frozen_accounts).0 ≡ none
unfolding unfreeze_balance freeze_balance memory_table lookup insert ◌+ℤ◌
unfreezes = refl

unfreeze_balance-freeze_balance_example :
    SameBalances balances memory_table-IsTable accounts
      (unfreeze_balance balances (pos 7) usdt (pos 30) frozen_accounts).1
unfreeze_balance-freeze_balance_example =
    unfreeze_balance-freeze_balance balances memory_table-IsTable (pos 7) usdt (pos 30) accounts
      freezes unfreezes
