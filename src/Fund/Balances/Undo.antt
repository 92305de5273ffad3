-- ===== src/Fund/Balances/Undo.antt =====
-- Freezing, unfreezing and crediting an amount (pkg/fund/balance_repo.go), as the clients of the balances use
-- them.
use little_cex.Prelude.{
  ◌≡◌, inl, inr, ◌∙◌, refl, sym, ap, ℤ, pos, ◌+ℤ◌, ◌-ℤ◌, Option, none, some, Bytes, leb_ℤ, arith,
  int_laws, Bool-cases, same_or_not, eq_of_parts, ◌≤ℤ◌, ◌≢◌, +ℤ_parts, int_eq, nat_eq, bytes_eq,
  pair_eq,
}
use little_cex.Store.{Table, IsTable, Only, changed, affected, put}
use little_cex.Fund.Balances.{
  BalanceKey, BalanceRecord, freeze_balance, unfreeze_balance, available_of, locked_of, frozen,
  unfrozen, must_affect, add_available, credited, fresh_balance, RepoError,
}

-- The row after an amount was taken from what is available and locked.
pub record IsMoved (amount : ℤ) (before after : Option BalanceRecord) : Type 0 where
  pub available : available_of after ≡ available_of before -ℤ amount
  pub locked : locked_of after ≡ locked_of before +ℤ amount

module _ {Db : Type 0} (table : Table BalanceKey BalanceRecord Db) (law : IsTable table) where
  freeze_row :
      (amount : ℤ) (o : Option BalanceRecord)
      → must_affect (some (affected (λ r. leb_ℤ amount r.available) o)) ≡ none
      → IsMoved amount o (changed (λ r. leb_ℤ amount r.available) (frozen amount) o)
  freeze_row amount none h = absurd (ground arith)
  freeze_row amount (some r) h = elim (Bool-cases (leb_ℤ amount r.available)) [
    | inl t ↦ rw t (record { available = refl; locked = refl })
    | inr t ↦ absurd (ground arith)
  ]

  -- A freeze that succeeds moves the amount, which the available balance covered, and touches no
  -- other row.
  pub freeze_balance-moves :
      (uid : ℤ) (symbol : Bytes) (amount : ℤ) (d : Db)
      → (freeze_balance table uid symbol amount d).0 ≡ none
      → IsMoved amount
          (table.row (uid, symbol) d)
          (table.row (uid, symbol) (freeze_balance table uid symbol amount d).1)
  unfolding freeze_balance
  freeze_balance-moves uid symbol amount d h =
      elim (law.update_lem (uid, symbol) (λ r. leb_ℤ amount r.available) (frozen amount) d) [
        | inl (e, _) ↦ absurd (ground arith)
        | inr (e, row) ↦
            rw row (freeze_row amount (table.row (uid, symbol) d) (ap must_affect (sym e) ∙ h))
      ]

  unfreeze_row :
      (amount : ℤ) (o : Option BalanceRecord)
      → must_affect (some (affected (λ r. leb_ℤ amount r.locked) o)) ≡ none
      → (available_of (changed (λ r. leb_ℤ amount r.locked) (unfrozen amount) o)
          ≡ available_of o +ℤ amount)
        × (locked_of (changed (λ r. leb_ℤ amount r.locked) (unfrozen amount) o)
            ≡ locked_of o -ℤ amount)
  unfreeze_row amount none h = absurd (ground arith)
  unfreeze_row amount (some r) h = elim (Bool-cases (leb_ℤ amount r.locked)) [
    | inl t ↦ rw t (refl, refl)
    | inr t ↦ absurd (ground arith)
  ]

  pub unfreeze_balance-moves :
      (uid : ℤ) (symbol : Bytes) (amount : ℤ) (d : Db)
      → (unfreeze_balance table uid symbol amount d).0 ≡ none
      → (available_of (table.row (uid, symbol) (unfreeze_balance table uid symbol amount d).1)
          ≡ available_of (table.row (uid, symbol) d) +ℤ amount)
        × (locked_of (table.row (uid, symbol) (unfreeze_balance table uid symbol amount d).1)
            ≡ locked_of (table.row (uid, symbol) d) -ℤ amount)
  unfolding unfreeze_balance
  unfreeze_balance-moves uid symbol amount d h =
      elim (law.update_lem (uid, symbol) (λ r. leb_ℤ amount r.locked) (unfrozen amount) d) [
        | inl (e, _) ↦ absurd (ground arith)
        | inr (e, row) ↦
            rw row (unfreeze_row amount (table.row (uid, symbol) d) (ap must_affect (sym e) ∙ h))
      ]

  pub freeze_balance-Only :
      (uid : ℤ) (symbol : Bytes) (amount : ℤ) (d : Db)
      → Only table (uid, symbol) d (freeze_balance table uid symbol amount d).1
  unfolding freeze_balance
  freeze_balance-Only uid symbol amount d = law.update_only (uid, symbol) _ _ d

  pub unfreeze_balance-Only :
      (uid : ℤ) (symbol : Bytes) (amount : ℤ) (d : Db)
      → Only table (uid, symbol) d (unfreeze_balance table uid symbol amount d).1
  unfolding unfreeze_balance
  unfreeze_balance-Only uid symbol amount d = law.update_only (uid, symbol) _ _ d

  -- What two databases hold for every user and symbol is the same.
  pub record SameBalances (a b : Db) : Type 0 where
    pub agree :
        (k : BalanceKey)
        → (available_of (table.row k b) ≡ available_of (table.row k a))
          × (locked_of (table.row k b) ≡ locked_of (table.row k a))

  restored_balances :
      (k : BalanceKey) (amount : ℤ) (a b c : Option BalanceRecord)
      → IsMoved amount a b
      → (available_of c ≡ available_of b +ℤ amount) × (locked_of c ≡ locked_of b -ℤ amount)
      → (available_of c ≡ available_of a) × (locked_of c ≡ locked_of a)
  restored_balances k amount a b c m (p, q) = (
    p ∙ ap (λ (z : ℤ). z +ℤ amount) m.available ∙ eq_of_parts _ _ (omega int_laws),
    q ∙ ap (λ (z : ℤ). z -ℤ amount) m.locked ∙ eq_of_parts _ _ (omega int_laws),
  )

  -- Freezing and then unfreezing an amount, where both succeed, brings every balance back.
  pub unfreeze_balance-freeze_balance :
      (uid : ℤ) (symbol : Bytes) (amount : ℤ) (d : Db)
      → (freeze_balance table uid symbol amount d).0 ≡ none
      → (unfreeze_balance table uid symbol amount (freeze_balance table uid symbol amount d).1).0
        ≡ none
      → SameBalances d
          (unfreeze_balance table uid symbol amount (freeze_balance table uid symbol amount d).1).1
  unfreeze_balance-freeze_balance uid symbol amount d h k = record {
    agree = λ j. elim (same_or_not j (uid, symbol)) [
      | inl same ↦ rw same (
          restored_balances (uid, symbol) amount (table.row (uid, symbol) d)
            (table.row (uid, symbol) (freeze_balance table uid symbol amount d).1)
            (table.row (uid, symbol)
              (unfreeze_balance table uid symbol amount
                (freeze_balance table uid symbol amount d).1).1)
            (freeze_balance-moves uid symbol amount d h)
            (unfreeze_balance-moves uid symbol amount (freeze_balance table uid symbol amount d).1
              k))
      | inr other ↦
          let still : table.row j
                (unfreeze_balance table uid symbol amount
                  (freeze_balance table uid symbol amount d).1).1
              ≡ table.row j d =
            unfreeze_balance-Only uid symbol amount (freeze_balance table uid symbol amount d).1 j
              other
            ∙ freeze_balance-Only uid symbol amount d j other in
          (ap available_of still, ap locked_of still)
    ];
  }

  credited_row :
      (uid : ℤ) (symbol : Bytes) (amount : ℤ) (o : Option BalanceRecord)
      → available_of (some (put (fresh_balance uid symbol amount (pos 0)) (credited amount) o))
        ≡ available_of o +ℤ amount
  credited_row uid symbol amount none = eq_of_parts _ _ (omega int_laws)
  credited_row uid symbol amount (some r) = refl

  -- A credit that succeeds adds the amount to what was available, 0 without a row.
  pub add_available-adds :
      (uid : ℤ) (symbol : Bytes) (amount : ℤ) (d : Db)
      → (add_available table uid symbol amount d).0 ≡ none
      → available_of (table.row (uid, symbol) (add_available table uid symbol amount d).1)
        ≡ available_of (table.row (uid, symbol) d) +ℤ amount
  unfolding add_available
  add_available-adds uid symbol amount d h =
      elim (law.upsert_lem (uid, symbol) (fresh_balance uid symbol amount (pos 0)) (credited amount)
        d) [
          | inl (e, _) ↦ absurd (ground arith)
          | inr (e, row) ↦ rw row (credited_row uid symbol amount (table.row (uid, symbol) d))
        ]

  -- A freeze that failed moved nothing.
  pub freeze_balance-refused :
      (uid : ℤ) (symbol : Bytes) (amount : ℤ) (d : Db) (e : RepoError)
      → (freeze_balance table uid symbol amount d).0 ≡ some e
      → SameBalances d (freeze_balance table uid symbol amount d).1
  unfolding freeze_balance
  freeze_balance-refused uid symbol amount d e h = record {
    agree = λ k.
        let still : table.row k (freeze_balance table uid symbol amount d).1 ≡ table.row k d =
          elim (same_or_not k (uid, symbol)) [
            | inr other ↦ freeze_balance-Only uid symbol amount d k other
            | inl same ↦
                rw same
                  (elim (law.update_lem (uid, symbol) (λ r. leb_ℤ amount r.available)
                    (frozen amount) d) [
                      | inl (_, row) ↦ row
                      | inr (n, row) ↦
                          row ∙ unmoved (table.row (uid, symbol) d) (ap must_affect (sym n) ∙ h)
                    ])
          ] in
        (ap available_of still, ap locked_of still);
  }
    where
      unmoved :
          (o : Option BalanceRecord)
          → must_affect (some (affected (λ r. leb_ℤ amount r.available) o)) ≡ some e
          → changed (λ r. leb_ℤ amount r.available) (frozen amount) o ≡ o
      unmoved none q = refl
      unmoved (some r) q = ground arith

  takes_back :
      (amount : ℤ) (o : Option BalanceRecord)
      → must_affect (some (affected (λ r. leb_ℤ amount r.available) o)) ≡ none
      → pos 0 ≤ℤ locked_of o
      → must_affect (
          some (
            affected
              (λ r. leb_ℤ amount r.locked)
              (changed (λ r. leb_ℤ amount r.available) (frozen amount) o)))
        ≡ none
  takes_back amount none h n = absurd (ground arith)
  takes_back amount (some r) h n = ground (arith, +ℤ_parts r.locked amount)

  -- What was frozen can be unfrozen, if the database takes the update.
  pub unfreeze_balance-succeeds :
      (uid : ℤ) (symbol : Bytes) (amount : ℤ) (d : Db)
      → pos 0 ≤ℤ locked_of (table.row (uid, symbol) d)
      → (freeze_balance table uid symbol amount d).0 ≡ none
      → (table.update
          (uid, symbol)
          (λ r. leb_ℤ amount r.locked)
          (unfrozen amount)
          (freeze_balance table uid symbol amount d).1).0
        ≢ none
      → (unfreeze_balance table uid symbol amount (freeze_balance table uid symbol amount d).1).0
        ≡ none
  unfolding freeze_balance unfreeze_balance
  unfreeze_balance-succeeds uid symbol amount d n h t =
      let after = (freeze_balance table uid symbol amount d).1 in
      elim (law.update_lem (uid, symbol) (λ r. leb_ℤ amount r.available) (frozen amount) d) [
        | inl (e, _) ↦ absurd (ground arith)
        | inr (e, row) ↦
            elim (law.update_lem (uid, symbol) (λ r. leb_ℤ amount r.locked) (unfrozen amount)
              after) [
                | inl (f, _) ↦ absurd (t f)
                | inr (f, _) ↦
                    ap must_affect f
                    ∙ ap
                        (λ (o : Option BalanceRecord).
                          must_affect (some (affected (λ r. leb_ℤ amount r.locked) o)))
                        row
                    ∙ takes_back amount (table.row (uid, symbol) d) (ap must_affect (sym e) ∙ h) n
              ]
      ]
