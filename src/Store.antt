-- ===== src/Store.antt =====
-- What the code relies on of its database: a table with a unique key, whose statements either fail
-- and change nothing, or do what they say to the one row with the key. The database library is not
-- part of the repository: its statements are parameters, and what they promise is a hypothesis.
pub mod Memory
use little_cex.Prelude.{
  ℕ, ◌≡◌, ◌≢◌, ◌⊎◌, Bool, true, false, Option, none, some, if◌then◌else◌, int_eq, bytes_eq, nat_eq,
}

pub record Table (Key Row Db : Type 0) : Type 0 where
  -- the row with a key, which no statement returns by itself
  pub row : Key → Db → Option Row
  -- `SELECT … WHERE key`; `none` is an error of the database
  pub select : Key → Db → Option (Option Row)
  -- `UPDATE … WHERE key AND condition`: how many rows were changed
  pub update : Key → (Row → Bool) → (Row → Row) → Db → Option ℕ × Db
  -- `INSERT … ON DUPLICATE KEY UPDATE`
  pub upsert : Key → Row → (Row → Row) → Db → Bool × Db
  -- writing a whole row
  pub save : Key → Row → Db → Bool × Db

abbrev pub changed : {Row : Type 0} → (Row → Bool) → (Row → Row) → Option Row → Option Row
changed cond f none = none
changed cond f (some r) = some (if cond r then f r else r)

abbrev pub affected : {Row : Type 0} → (Row → Bool) → Option Row → ℕ
affected cond none = 0
affected cond (some r) = if cond r then 1 else 0

abbrev pub put : {Row : Type 0} → Row → (Row → Row) → Option Row → Row
put fresh f none = fresh
put fresh f (some r) = f r

-- Whatever a statement answers, `b` differs from `a` at the key `k` at most.
abbrev pub Only : {Key Row Db : Type 0} → Table Key Row Db → Key → Db → Db → Type 0
Only {Key = Key} t k a b = (j : Key) → j ≢ k → t.row j b ≡ t.row j a

pub record IsTable {Key Row Db : Type 0} (t : Table Key Row Db) : Type 0 where
  pub select_lem : (k : Key) (d : Db) → (t.select k d ≡ none) ⊎ (t.select k d ≡ some (t.row k d))
  pub update_lem :
      (k : Key) (cond : Row → Bool) (f : Row → Row) (d : Db)
      → ((t.update k cond f d).0 ≡ none) × (t.row k (t.update k cond f d).1 ≡ t.row k d)
        ⊎ ((t.update k cond f d).0 ≡ some (affected cond (t.row k d)))
          × (t.row k (t.update k cond f d).1 ≡ changed cond f (t.row k d))
  pub update_only :
      (k : Key) (cond : Row → Bool) (f : Row → Row) (d : Db) → Only t k d (t.update k cond f d).1
  pub upsert_lem :
      (k : Key) (fresh : Row) (f : Row → Row) (d : Db)
      → ((t.upsert k fresh f d).0 ≡ false) × (t.row k (t.upsert k fresh f d).1 ≡ t.row k d)
        ⊎ ((t.upsert k fresh f d).0 ≡ true)
          × (t.row k (t.upsert k fresh f d).1 ≡ some (put fresh f (t.row k d)))
  pub upsert_only :
      (k : Key) (fresh : Row) (f : Row → Row) (d : Db) → Only t k d (t.upsert k fresh f d).1
  pub save_lem :
      (k : Key) (r : Row) (d : Db)
      → ((t.save k r d).0 ≡ false) × (t.row k (t.save k r d).1 ≡ t.row k d)
        ⊎ ((t.save k r d).0 ≡ true) × (t.row k (t.save k r d).1 ≡ some r)
  pub save_only : (k : Key) (r : Row) (d : Db) → Only t k d (t.save k r d).1
