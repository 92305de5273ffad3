-- ===== src/Futures/Insurance.antt =====
-- The insurance fund (pkg/futures/insurance_fund.go): a balance for each currency, a log of its changes
-- and a cache. Whether a statement of the database fails, the commit of a transaction included, is a
-- stream in the state. Time stamps and numbers of rows are left aside.
pub mod Entries
pub mod Backed
use little_cex.Prelude.{
  ℕ, ◌+◌, ℤ, pos, Bool, Option, none, some, List, [], ◌∷◌, Bytes, Map, if◌then◌else◌, ltb_ℤ, leb_ℤ,
  add64, sub64, neg64, int_eq, bytes_eq, nat_eq, lookup, insert, ascii, pair_eq,
}

-- `InsuranceFundLog`
pub record InsuranceFundLog : Type 0 where
  pub currency : Bytes
  pub change_type : Bytes
  pub amount : ℤ
  pub balance_after : ℤ
  pub related_user_id : ℤ
  pub related_symbol : Bytes
  pub remark : Bytes

pub data InsuranceError : Type 0 where
  amount_not_positive insufficient_insurance_fund database : InsuranceError

pub record InsuranceFund : Type 0 where
  -- the table of balances
  pub rows : Map Bytes ℤ
  -- the table of the log, the last entry first
  pub logs : List InsuranceFundLog
  pub balance_cache : Map Bytes ℤ
  pub fails : ℕ → Bool

abbrev pub Outcome : Type 0
Outcome = Option InsuranceError × InsuranceFund

-- What remains of the stream after a statement.
abbrev pub asked : InsuranceFund → InsuranceFund
asked f = record f { fails = λ n. f.fails (n + 1) }

abbrev pub or_zero : Option ℤ → ℤ
or_zero none = pos 0
or_zero (some b) = b

unfoldable pub get_balance : Bytes → InsuranceFund → ℤ
get_balance currency f = or_zero (lookup currency f.balance_cache)

abbrev pub rolled_back : InsuranceFund → InsuranceFund → InsuranceFund
rolled_back before f = record f { rows = before.rows; logs = before.logs }

-- `Transaction`: an error, also one of the commit, takes the tables back, and nothing else.
unfoldable pub transaction : InsuranceFund → Outcome → Outcome
transaction before (some e, f) = (some e, rolled_back before f)
transaction before (none, f) =
    if f.fails 0 then (some database, rolled_back before (asked f)) else (none, asked f)

-- The new balance, its log entry, and then the cache.
unfoldable pub book : InsuranceFundLog → InsuranceFund → Outcome
book entry f =
    let updated = record (asked f) { rows = insert entry.currency entry.balance_after f.rows } in
    if f.fails 0
    then (some database, asked f)
    else if updated.fails 0
    then (some database, asked updated)
    else (
      none,
      record (asked updated) {
        logs = entry ∷ f.logs;
        balance_cache = insert entry.currency entry.balance_after f.balance_cache;
      },
    )

-- The row is looked for, and created where there is none. An error in creating it is ignored, but the
-- update of a row without a number is refused.
unfoldable pub find_or_create : Bytes → (ℤ → InsuranceFund → Outcome) → InsuranceFund → Outcome
find_or_create currency go f =
    let found = asked f in
    let created = record (asked found) { rows = insert currency (pos 0) f.rows } in
    if f.fails 0 then (some database, found) else elim (lookup currency f.rows) [
      | none ↦ if found.fails 0 then (some database, asked found) else go (pos 0) created
      | some b ↦ go b found
    ]

unfoldable pub added_entry : Bytes → ℤ → Bytes → ℤ → Bytes → Bytes → ℤ → InsuranceFundLog
added_entry currency amount change_type uid symbol remark balance = record {
  currency = currency;
  change_type = change_type;
  amount = amount;
  balance_after = add64 balance amount;
  related_user_id = uid;
  related_symbol = symbol;
  remark = remark;
}

unfoldable pub add_funds : Bytes → ℤ → Bytes → ℤ → Bytes → Bytes → InsuranceFund → Outcome
add_funds currency amount change_type uid symbol remark f =
    if leb_ℤ amount (pos 0)
    then (some amount_not_positive, f)
    else transaction f (
        find_or_create currency
          (λ balance. book (added_entry currency amount change_type uid symbol remark balance)) f)

-- At most what the fund holds.
unfoldable pub covered_amount : ℤ → ℤ → ℤ
covered_amount amount balance = if ltb_ℤ balance amount then balance else amount

unfoldable pub cover_entry : Bytes → ℤ → ℤ → Bytes → ℤ → InsuranceFundLog
cover_entry currency covered uid symbol balance = record {
  currency = currency;
  change_type = ascii "BANKRUPT_COVER";
  amount = neg64 covered;
  balance_after = sub64 balance covered;
  related_user_id = uid;
  related_symbol = symbol;
  remark = ascii "Cover user bankruptcy";
}

unfoldable pub cover_from : Bytes → ℤ → ℤ → Bytes → ℤ → InsuranceFund → Outcome
cover_from currency covered uid symbol balance f =
    if leb_ℤ covered (pos 0)
    then (some insufficient_insurance_fund, f)
    else book (cover_entry currency covered uid symbol balance) f

-- What was covered, and the error, which does not take the amount back.
unfoldable pub cover_bankruptcy : Bytes → ℤ → ℤ → Bytes → InsuranceFund → ℤ × Outcome
cover_bankruptcy currency amount uid symbol f =
    if leb_ℤ amount (pos 0)
    then (pos 0, (none, f))
    else if f.fails 0
    then (pos 0, transaction f (some database, asked f))
    else elim (lookup currency f.rows) [
      | none ↦ (pos 0, transaction f (some database, asked f))
      | some balance ↦ (
        covered_amount amount balance,
        transaction f
            (cover_from currency (covered_amount amount balance) uid symbol balance (asked f)),
      )
    ]

unfoldable pub needs_adl : Bytes → ℤ → InsuranceFund → Bool
needs_adl currency bankrupt_amount f = ltb_ℤ (get_balance currency f) bankrupt_amount

-- `loadAll`: the cache of a new fund; nothing is loaded where the statement fails.
abbrev load_rows : Map Bytes ℤ → Map Bytes ℤ → Map Bytes ℤ
load_rows [] cache = cache
load_rows ((k, b) ∷ rows) cache = load_rows rows (insert k b cache)

unfoldable pub load_all : InsuranceFund → InsuranceFund
load_all f =
    if f.fails 0
    then asked f
    else record (asked f) { balance_cache = load_rows f.rows f.balance_cache }
