-- ===== src/Fund/Balances/Solvent.antt =====
-- No balance in the database goes below 0 (pkg/fund/balance_repo.go), as long as the amounts are not
-- negative.
use little_cex.Prelude.{
  pair_eq, ℕ, ◌≡◌, inl, inr, ℤ, pos, ◌≤ℤ◌, Bool, true, Option, none, some, Bytes, leb_ℤ, arith,
  Bool-cases, int_eq, bytes_eq, nat_eq, nat_beq, -ℤ_parts, +ℤ_parts, same_or_not,
}
use little_cex.Store.{Table, IsTable, changed, put}
use little_cex.Fund.Balances.{
  BalanceKey, BalanceRecord, freeze_balance, unfreeze_balance, deduct_locked, add_available,
  upsert_balance, update_balance_with_version, frozen, unfrozen, deducted, credited, fresh_balance,
}

abbrev RowIsSolvent : Option BalanceRecord → Type 0
RowIsSolvent none = Unit
RowIsSolvent (some r) = (pos 0 ≤ℤ r.available) × (pos 0 ≤ℤ r.locked)

module _ (amount : ℤ) (n : pos 0 ≤ℤ amount) (r : BalanceRecord) where
  frozen_solvent :
      leb_ℤ amount r.available ≡ true
      → RowIsSolvent (some r)
      → RowIsSolvent (some (frozen amount r))
  frozen_solvent t s = ground (arith, -ℤ_parts r.available amount, +ℤ_parts r.locked amount)

  unfrozen_solvent :
      leb_ℤ amount r.locked ≡ true → RowIsSolvent (some r) → RowIsSolvent (some (unfrozen amount r))
  unfrozen_solvent t s = ground (arith, +ℤ_parts r.available amount, -ℤ_parts r.locked amount)

  deducted_solvent :
      leb_ℤ amount r.locked ≡ true → RowIsSolvent (some r) → RowIsSolvent (some (deducted amount r))
  deducted_solvent t s = ground (arith, -ℤ_parts r.locked amount)

  credited_solvent : RowIsSolvent (some r) → RowIsSolvent (some (credited amount r))
  credited_solvent s = ground (arith, +ℤ_parts r.available amount)

module _ {Db : Type 0} (table : Table BalanceKey BalanceRecord Db) where
  -- One call of the repository, with an amount that is not negative, whatever it answers.
  pub data Step (a : Db) : Db → Type 0 where
    freeze :
        (uid : ℤ) (symbol : Bytes) (amount : ℤ)
        → pos 0 ≤ℤ amount
        → Step a (freeze_balance table uid symbol amount a).1
    unfreeze :
        (uid : ℤ) (symbol : Bytes) (amount : ℤ)
        → pos 0 ≤ℤ amount
        → Step a (unfreeze_balance table uid symbol amount a).1
    deduct :
        (uid : ℤ) (symbol : Bytes) (amount : ℤ)
        → pos 0 ≤ℤ amount
        → Step a (deduct_locked table uid symbol amount a).1
    add :
        (uid : ℤ) (symbol : Bytes) (amount : ℤ)
        → pos 0 ≤ℤ amount
        → Step a (add_available table uid symbol amount a).1
    upsert :
        (uid : ℤ) (symbol : Bytes) (available locked : ℤ)
        → pos 0 ≤ℤ available
        → pos 0 ≤ℤ locked
        → Step a (upsert_balance table uid symbol available locked a).1
    versioned :
        (uid : ℤ) (symbol : Bytes) (available locked : ℤ) (version : ℕ)
        → pos 0 ≤ℤ available
        → pos 0 ≤ℤ locked
        → Step a (update_balance_with_version table uid symbol available locked version a).1

  pub data Reach (a : Db) : Db → Type 0 where
    here : Reach a a
    next : {b c : Db} → Reach a b → Step b c → Reach a c

  abbrev pub IsSolvent : Db → Type 0
  IsSolvent d = (k : BalanceKey) → RowIsSolvent (table.row k d)

  module _ (law : IsTable table) where
    update-IsSolvent :
        (k : BalanceKey) (cond : BalanceRecord → Bool) (f : BalanceRecord → BalanceRecord) (d : Db)
        → ((r : BalanceRecord) → cond r ≡ true → RowIsSolvent (some r) → RowIsSolvent (some (f r)))
        → IsSolvent d
        → IsSolvent (table.update k cond f d).1
    update-IsSolvent k cond f d keep h j = elim (same_or_not j k) [
      | inl same ↦ rw same (elim (law.update_lem k cond f d) [
        | inl (_, e) ↦ rw e (h k)
        | inr (_, e) ↦ rw e (changed_solvent (table.row k d) (h k))
      ])
      | inr other ↦ rw (law.update_only k cond f d j other) (h j)
    ]
      where
        changed_solvent :
            (o : Option BalanceRecord) → RowIsSolvent o → RowIsSolvent (changed cond f o)
        changed_solvent none s = s
        changed_solvent (some r) s = elim (Bool-cases (cond r)) [
          | inl t ↦ rw t (keep r t s)
          | inr t ↦ rw t s
        ]

    upsert-IsSolvent :
        (k : BalanceKey) (fresh : BalanceRecord) (f : BalanceRecord → BalanceRecord) (d : Db)
        → RowIsSolvent (some fresh)
        → ((r : BalanceRecord) → RowIsSolvent (some r) → RowIsSolvent (some (f r)))
        → IsSolvent d
        → IsSolvent (table.upsert k fresh f d).1
    upsert-IsSolvent k fresh f d new keep h j = elim (same_or_not j k) [
      | inl same ↦ rw same (elim (law.upsert_lem k fresh f d) [
        | inl (_, e) ↦ rw e (h k)
        | inr (_, e) ↦ rw e (put_solvent (table.row k d) (h k))
      ])
      | inr other ↦ rw (law.upsert_only k fresh f d j other) (h j)
    ]
      where
        put_solvent :
            (o : Option BalanceRecord) → RowIsSolvent o → RowIsSolvent (some (put fresh f o))
        put_solvent none s = new
        put_solvent (some r) s = keep r s

    Step-IsSolvent : {a b : Db} → Step a b → IsSolvent a → IsSolvent b
    unfolding freeze_balance unfreeze_balance deduct_locked add_available upsert_balance
        update_balance_with_version
    Step-IsSolvent {a} (freeze uid symbol amount n) h =
        update-IsSolvent (uid, symbol) (λ r. leb_ℤ amount r.available) (frozen amount) a
          (frozen_solvent amount n) h
    Step-IsSolvent {a} (unfreeze uid symbol amount n) h =
        update-IsSolvent (uid, symbol) (λ r. leb_ℤ amount r.locked) (unfrozen amount) a
          (unfrozen_solvent amount n) h
    Step-IsSolvent {a} (deduct uid symbol amount n) h =
        update-IsSolvent (uid, symbol) (λ r. leb_ℤ amount r.locked) (deducted amount) a
          (deducted_solvent amount n) h
    Step-IsSolvent {a} (add uid symbol amount n) h =
        upsert-IsSolvent (uid, symbol) (fresh_balance uid symbol amount (pos 0)) (credited amount) a
          (n, omega arith) (credited_solvent amount n) h
    Step-IsSolvent {a} (upsert uid symbol available locked m n) h =
        upsert-IsSolvent (uid, symbol) (fresh_balance uid symbol available locked) _ a (m, n)
          (λ r s. (m, n)) h
    Step-IsSolvent {a} (versioned uid symbol available locked version m n) h =
        update-IsSolvent (uid, symbol) (λ r. nat_beq r.version version) _ a (λ r t s. (m, n)) h

    -- From a database where no balance is below 0, no sequence of calls with amounts that are not
    -- negative, whether they succeed or fail, brings one below 0.
    pub Reach-IsSolvent : {a b : Db} → IsSolvent a → Reach a b → IsSolvent b
    Reach-IsSolvent h here = h
    Reach-IsSolvent h (next r st) = Step-IsSolvent st (Reach-IsSolvent h r)
