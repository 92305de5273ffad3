-- ===== src/Asset/Shard/Keep.antt =====
-- Every operation keeps the invariant of the balances.
use little_cex.Prelude.{
  sym, subst, ℤ, pos, ◌≡◌, true, false, ◌&&◌, inl, inr, Bytes, ◌≤ℤ◌, ltb_ℤ, leb_ℤ, arith, eqb_ℤ,
  eqb_ℤ_iff, bytes_beq, bytes_beq_iff, Bool-cases,
}
use little_cex.Asset.Model.{Asset, is_nonempty}
use little_cex.Asset.Shard.Handler.{execute}
use little_cex.Asset.Shard.Execute.{execute-refines}
use little_cex.Asset.Shard.Options.{options_of}
use little_cex.Asset.Shard.State.{
  Shard, CmdType, reserve, release, transfer, add_balance, deduct_balance, unset, Command,
}
use little_cex.Asset.Shard.Operations.{is_nonempty_text, credit, debit, lock, unlock}
use little_cex.Asset.Shard.Balances.{Sheet, upd}
use little_cex.Asset.Shard.Ledger.{
  Reply, view, dispatch_spec, execute_spec, Ledger, change, reserve_spec, release_spec, fee_spec,
  transfer_spec, add_balance_spec, deduct_balance_spec,
}
use little_cex.Asset.Shard.Sound.{
  IsSoundAsset, IsSound, HasRoom, reserve-IsSoundAsset, release-IsSoundAsset, unlock-IsSoundAsset,
  debit-IsSoundAsset, credit-IsSoundAsset,
}

upd-IsSoundAsset :
    (uid : ℤ) (symbol : Bytes) (f : Asset → Asset) (b : Sheet)
    → ((u : ℤ) (y : Bytes) → IsSoundAsset (b u y))
    → IsSoundAsset (f (b uid symbol))
    → (u : ℤ) (y : Bytes) → IsSoundAsset (upd uid symbol f b u y)
unfolding upd
upd-IsSoundAsset uid symbol f b each new u y =
    elim (Bool-cases (eqb_ℤ u uid && bytes_beq y symbol)) [
      | inl here ↦ rw here (subst (λ (a : Asset). IsSoundAsset (f a)) (same_place here) new)
      | inr other ↦ rw other (each u y)
    ]
  where
    same_place : eqb_ℤ u uid && bytes_beq y symbol ≡ true → b uid symbol ≡ b u y
    same_place h = ground (arith, eqb_ℤ_iff u uid, bytes_beq_iff y symbol)

change-IsSound :
    (uid : ℤ) (symbol : Bytes) (f : Asset → Asset) {l : Ledger}
    → IsSound l
    → IsSoundAsset (f (l.balances uid symbol))
    → IsSound (change uid symbol f l)
change-IsSound uid symbol f {l} s new = record {
  each = upd-IsSoundAsset uid symbol f l.balances s.each new;
}

upd_self :
    (uid : ℤ) (symbol : Bytes) (f : Asset → Asset) (b : Sheet)
    → upd uid symbol f b uid symbol ≡ f (b uid symbol)
unfolding upd
upd_self uid symbol f b = ground (arith, eqb_ℤ_iff uid uid, bytes_beq_iff symbol symbol)

-- Two changes at one place.
change_twice-IsSound :
    (uid : ℤ) (symbol : Bytes) (f g : Asset → Asset) {l : Ledger}
    → IsSound l
    → IsSoundAsset (f (l.balances uid symbol))
    → IsSoundAsset (g (f (l.balances uid symbol)))
    → IsSound (change uid symbol g (change uid symbol f l))
change_twice-IsSound uid symbol f g {l} s first second =
    change-IsSound uid symbol g (change-IsSound uid symbol f s first)
      (rw (upd_self uid symbol f l.balances) second)

reserve_spec-IsSound :
    (cmd : Command) (l : Ledger) → IsSound l → pos 0 ≤ℤ cmd.amount → IsSound (reserve_spec cmd l).1
unfolding reserve_spec
reserve_spec-IsSound cmd l s p =
    elim (Bool-cases (ltb_ℤ (l.balances cmd.user_id cmd.symbol).available cmd.amount)) [
      | inl short ↦ rw short (record { each = s.each })
      | inr covered ↦ rw covered (
          change_twice-IsSound cmd.user_id cmd.symbol (debit cmd.amount) (lock cmd.amount)
            (record { each = s.each })
            (debit-IsSoundAsset cmd.amount _ (s.each cmd.user_id cmd.symbol) p (ground arith))
            (reserve-IsSoundAsset cmd.amount _ (s.each cmd.user_id cmd.symbol) p (ground arith)))
    ]

release_spec-IsSound :
    (cmd : Command) (l : Ledger) → IsSound l → pos 0 ≤ℤ cmd.amount → IsSound (release_spec cmd l).1
unfolding release_spec
release_spec-IsSound cmd l s p = elim (Bool-cases (l.users cmd.user_id)) [
  | inl there ↦
      rw there (elim (Bool-cases (ltb_ℤ (l.balances cmd.user_id cmd.symbol).locked cmd.amount)) [
        | inl short ↦ rw short s
        | inr covered ↦ rw covered (
            change_twice-IsSound cmd.user_id cmd.symbol (unlock cmd.amount) (credit cmd.amount) s
              (unlock-IsSoundAsset cmd.amount _ (s.each cmd.user_id cmd.symbol) p (ground arith))
              (release-IsSoundAsset cmd.amount _ (s.each cmd.user_id cmd.symbol) p (ground arith)))
      ])
  | inr missing ↦ rw missing s
]

deduct_balance_spec-IsSound :
    (cmd : Command) (l : Ledger)
    → IsSound l
    → pos 0 ≤ℤ cmd.amount
    → IsSound (deduct_balance_spec cmd l).1
unfolding deduct_balance_spec
deduct_balance_spec-IsSound cmd l s p = elim (Bool-cases (l.users cmd.user_id)) [
  | inl there ↦
      rw there (elim (Bool-cases (ltb_ℤ (l.balances cmd.user_id cmd.symbol).available cmd.amount)) [
        | inl short ↦ rw short s
        | inr covered ↦ rw covered (
            change-IsSound cmd.user_id cmd.symbol (debit cmd.amount) s
              (debit-IsSoundAsset cmd.amount _ (s.each cmd.user_id cmd.symbol) p (ground arith)))
      ])
  | inr missing ↦ rw missing s
]

add_balance_spec-IsSound :
    (cmd : Command) (l : Ledger)
    → IsSound l
    → pos 0 ≤ℤ cmd.amount
    → HasRoom cmd.amount (l.balances cmd.user_id cmd.symbol)
    → IsSound (add_balance_spec cmd l).1
unfolding add_balance_spec
add_balance_spec-IsSound cmd l s p room =
    change-IsSound cmd.user_id cmd.symbol (credit cmd.amount) (record { each = s.each })
      (credit-IsSoundAsset cmd.amount _ (s.each cmd.user_id cmd.symbol) p room)

fee_spec-IsSound : (cmd : Command) (l : Ledger) → IsSound l → IsSound (fee_spec cmd l)
unfolding fee_spec
fee_spec-IsSound cmd l s =
    elim (Bool-cases (
      ltb_ℤ (pos 0) cmd.fee
      && is_nonempty_text cmd.fee_asset
      && leb_ℤ cmd.fee (l.balances cmd.user_id cmd.fee_asset).available)) [
        | inl due ↦ rw due (
            change-IsSound cmd.user_id cmd.fee_asset (debit cmd.fee) s (
              debit-IsSoundAsset cmd.fee _ (s.each cmd.user_id cmd.fee_asset) (ground arith)
                (ground arith)))
        | inr none_due ↦ rw none_due s
      ]

-- The balances of a transfer before the receiver is paid.
abbrev pub debited : Command → Ledger → Ledger
debited cmd l = fee_spec cmd (change cmd.user_id cmd.symbol (unlock cmd.amount) l)

transfer_spec-IsSound :
    (cmd : Command) (l : Ledger)
    → IsSound l
    → pos 0 ≤ℤ cmd.amount
    → pos 0 ≤ℤ cmd.to_amount
    → HasRoom cmd.to_amount ((debited cmd l).balances cmd.to_user_id cmd.to_symbol)
    → IsSound (transfer_spec cmd l).1
unfolding transfer_spec
transfer_spec-IsSound cmd l s p q room = elim (Bool-cases (l.users cmd.user_id)) [
  | inl there ↦
      rw there (elim (Bool-cases (ltb_ℤ (l.balances cmd.user_id cmd.symbol).locked cmd.amount)) [
        | inl short ↦ rw short s
        | inr covered ↦
            let paid : IsSound (debited cmd l) = fee_spec-IsSound cmd _ (
              change-IsSound cmd.user_id cmd.symbol (unlock cmd.amount) s (
                unlock-IsSoundAsset cmd.amount _ (s.each cmd.user_id cmd.symbol) p
                  (ground arith))) in
            rw covered (
              change-IsSound cmd.to_user_id cmd.to_symbol (credit cmd.to_amount)
                (record { each = paid.each })
                (credit-IsSoundAsset cmd.to_amount _ (paid.each cmd.to_user_id cmd.to_symbol) q
                  room))
      ])
  | inr missing ↦ rw missing s
]

-- Whether what a command credits fits beside what the receiver holds.
abbrev pub Fits : CmdType → Command → Ledger → Type 0
Fits add_balance cmd l = HasRoom cmd.amount (l.balances cmd.user_id cmd.symbol)
Fits transfer cmd l = HasRoom cmd.to_amount ((debited cmd l).balances cmd.to_user_id cmd.to_symbol)
Fits _ cmd l = Unit {0}

dispatch_spec-IsSound :
    (t : CmdType) (cmd : Command) (l : Ledger)
    → IsSound l
    → pos 0 ≤ℤ cmd.amount
    → pos 0 ≤ℤ cmd.to_amount
    → Fits t cmd l
    → IsSound (dispatch_spec t cmd l).1
unfolding dispatch_spec
dispatch_spec-IsSound reserve cmd l s p q room = reserve_spec-IsSound cmd l s p
dispatch_spec-IsSound release cmd l s p q room = release_spec-IsSound cmd l s p
dispatch_spec-IsSound transfer cmd l s p q room = transfer_spec-IsSound cmd l s p q room
dispatch_spec-IsSound add_balance cmd l s p q room = add_balance_spec-IsSound cmd l s p room
dispatch_spec-IsSound deduct_balance cmd l s p q room = deduct_balance_spec-IsSound cmd l s p
dispatch_spec-IsSound unset cmd l s p q room = s

-- A command with no negative amounts, whose credit fits, keeps every balance from going negative
-- and every holding within an `int64`, whether it succeeds or not, where the user that it names as its
-- receiver holds no options.
pub execute-IsSound :
    (cmd : Command) (s : Shard)
    → IsSound (view s.users)
    → pos 0 ≤ℤ cmd.amount
    → pos 0 ≤ℤ cmd.to_amount
    → Fits cmd.type_ cmd (view s.users)
    → is_nonempty (options_of s.users cmd.to_user_id) ≡ false
    → IsSound (view (execute cmd s).1.users)
execute-IsSound cmd s sound p q room plain =
    subst (λ (r : Reply). IsSound r.1) (sym (execute-refines cmd s plain))
      (unfold execute_spec in dispatch_spec-IsSound cmd.type_ cmd (view s.users) sound p q room)
