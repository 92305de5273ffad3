-- ===== src/Fund/Balances.antt =====
-- Balances in the database (pkg/fund/balance_repo.go), a table with the user and the symbol as its
-- key. The user's number picks the table of the row, so a key stands for one row of all the tables.
pub mod Solvent
pub mod Undo
use little_cex.Prelude.{
  ℕ, zero, suc, ◌+◌, ℤ, pos, ◌+ℤ◌, ◌-ℤ◌, Bool, true, false, Option, none, some, Bytes, ltb, leb_ℤ,
  int_eq, bytes_eq, nat_eq, nat_beq,
}
use little_cex.Store.{Table}

-- `BalanceRecord`; its identifier and time stamp are left aside.
pub record BalanceRecord : Type 0 where
  pub user_id : ℤ
  pub symbol : Bytes
  pub available : ℤ
  pub locked : ℤ
  pub version : ℕ

abbrev pub BalanceKey : Type 0
BalanceKey = ℤ × Bytes

-- What a row holds, nothing without one.
abbrev pub available_of : Option BalanceRecord → ℤ
available_of none = pos 0
available_of (some r) = r.available

abbrev pub locked_of : Option BalanceRecord → ℤ
locked_of none = pos 0
locked_of (some r) = r.locked

pub data RepoError : Type 0 where
  database record_not_found : RepoError

-- An update that found no row is an error; `none` is the nil error.
abbrev pub must_affect : Option ℕ → Option RepoError
must_affect none = some database
must_affect (some zero) = some record_not_found
must_affect (some (suc _)) = none

abbrev pub may_affect : Option ℕ → Option RepoError
may_affect none = some database
may_affect (some _) = none

abbrev pub written : Bool → Option RepoError
written true = none
written false = some database

abbrev pub frozen : ℤ → BalanceRecord → BalanceRecord
frozen amount r = record r {
  available = r.available -ℤ amount;
  locked = r.locked +ℤ amount;
  version = r.version + 1;
}

abbrev pub unfrozen : ℤ → BalanceRecord → BalanceRecord
unfrozen amount r = record r {
  available = r.available +ℤ amount;
  locked = r.locked -ℤ amount;
  version = r.version + 1;
}

abbrev pub deducted : ℤ → BalanceRecord → BalanceRecord
deducted amount r = record r { locked = r.locked -ℤ amount; version = r.version + 1 }

abbrev pub credited : ℤ → BalanceRecord → BalanceRecord
credited amount r = record r { available = r.available +ℤ amount; version = r.version + 1 }

abbrev pub fresh_balance : ℤ → Bytes → ℤ → ℤ → BalanceRecord
fresh_balance uid symbol available locked = record {
  user_id = uid;
  symbol = symbol;
  available = available;
  locked = locked;
  version = 0;
}

module _ {Db : Type 0} (table : Table BalanceKey BalanceRecord Db) where
  unfoldable pub get_balance : ℤ → Bytes → Db → Option (Option BalanceRecord)
  get_balance uid symbol db = table.select (uid, symbol) db

  -- `UpdateBalanceWithVersion`: whether the row still had the version that was read.
  unfoldable pub update_balance_with_version : ℤ → Bytes → ℤ → ℤ → ℕ → Db → Option Bool × Db
  update_balance_with_version uid symbol available locked expected db =
      let (n, db') =
        table.update (uid, symbol) (λ r. nat_beq r.version expected)
          (λ r. record r { available = available; locked = locked; version = r.version + 1 }) db in
      (elim n [ none ↦ none | some k ↦ some (ltb 0 k) ], db')

  unfoldable pub upsert_balance : ℤ → Bytes → ℤ → ℤ → Db → Option RepoError × Db
  upsert_balance uid symbol available locked db =
      let (done, db') =
        table.upsert (uid, symbol) (fresh_balance uid symbol available locked)
          (λ r. record r { available = available; locked = locked; version = r.version + 1 }) db in
      (written done, db')

  unfoldable pub freeze_balance : ℤ → Bytes → ℤ → Db → Option RepoError × Db
  freeze_balance uid symbol amount db =
      let (n, db') =
        table.update (uid, symbol) (λ r. leb_ℤ amount r.available) (frozen amount) db in
      (must_affect n, db')

  unfoldable pub unfreeze_balance : ℤ → Bytes → ℤ → Db → Option RepoError × Db
  unfreeze_balance uid symbol amount db =
      let (n, db') = table.update (uid, symbol) (λ r. leb_ℤ amount r.locked) (unfrozen amount) db in
      (must_affect n, db')

  -- No error where the locked balance does not cover the amount.
  unfoldable pub deduct_locked : ℤ → Bytes → ℤ → Db → Option RepoError × Db
  deduct_locked uid symbol amount db =
      let (n, db') = table.update (uid, symbol) (λ r. leb_ℤ amount r.locked) (deducted amount) db in
      (may_affect n, db')

  unfoldable pub add_available : ℤ → Bytes → ℤ → Db → Option RepoError × Db
  add_available uid symbol amount db =
      let (done, db') =
        table.upsert (uid, symbol) (fresh_balance uid symbol amount (pos 0)) (credited amount) db in
      (written done, db')
