-- ===== src/Asset/Shard/Execute.antt =====
-- A transfer, and with it a command of any type, does what the ledger promises.
use little_cex.Prelude.{
  Bool, ap₂, ℤ, false, Map, Bytes, ap, ◌∙◌, pos, ◌≡◌, refl, true, ltb_ℤ, leb_ℤ, Bool-cases, inl,
  inr, arith, ◌&&◌,
}
use little_cex.Asset.Model.{OptionPosition, is_nonempty}
use little_cex.Asset.Shard.State.{
  CmdType, reserve, release, transfer, add_balance, deduct_balance, unset, Outcome, update_asset,
  Shard, Command, ok, ensure_asset, ◌>>=◌,
}
use little_cex.Asset.Shard.Operations.{
  unlock, do_transfer, take_fee, debit, credit, pay_receiver, is_nonempty_text,
}
use little_cex.Asset.Shard.Handler.{dispatch, execute}
use little_cex.Asset.Shard.Balances.{
  sheet, known, view_laws, get_or_create_user-ok, asset_at-ensure_asset, known_lem, add_known-known,
  add_known-true, add_known,
}
use little_cex.Asset.Shard.Options.{
  update_snapshot-ok, options_laws, options_of, options_of-ensure_asset, options_of-update_asset,
}
use little_cex.Asset.Shard.Refine.{
  do_reserve-refines, do_release-refines, do_add_balance-refines, do_deduct_balance-refines,
}
use little_cex.Asset.Shard.Ledger.{
  dispatch_spec, execute_spec, Reply, Ledger, transfer_spec, change, join, view, fee_spec,
}

take_fee-ok : (cmd : Command) (s : Shard) → (take_fee cmd s).0 ≡ ok tt
unfolding take_fee
take_fee-ok cmd s = ground arith

options_of-take_fee :
    (cmd : Command) (s : Shard) → options_of (take_fee cmd s).1.users ≡ options_of s.users
unfolding take_fee
options_of-take_fee cmd s = ground (
  arith,
  options_of-ensure_asset cmd.user_id cmd.fee_asset s.users,
  options_of-update_asset cmd.user_id cmd.fee_asset (debit cmd.fee)
      (ensure_asset cmd.user_id cmd.fee_asset s.users),
)

view-take_fee :
    (cmd : Command) (s : Shard)
    → known s.users cmd.user_id ≡ true
    → view (take_fee cmd s).1.users ≡ fee_spec cmd (view s.users)
unfolding take_fee fee_spec
view-take_fee cmd s there =
    rw (asset_at-ensure_asset cmd.user_id cmd.fee_asset s.users)
      (elim (Bool-cases (ltb_ℤ (pos 0) cmd.fee && is_nonempty_text cmd.fee_asset)) [
        | inl due ↦
            rw due
              (elim (Bool-cases
                (leb_ℤ cmd.fee (sheet s.users cmd.user_id cmd.fee_asset).available)) [
                  | inl covered ↦
                      rw covered
                        (simp (view_laws, add_known-known cmd.user_id (known s.users) there))
                  | inr short ↦
                      rw short (simp (view_laws, add_known-known cmd.user_id (known s.users) there))
                ])
        | inr none_due ↦ rw none_due refl
      ])

-- Where the receiver holds no options, paying it does not panic.
pay_receiver-ok :
    (cmd : Command) (s : Shard)
    → is_nonempty (options_of s.users cmd.to_user_id) ≡ false
    → (pay_receiver cmd s).0 ≡ ok tt
unfolding pay_receiver
pay_receiver-ok cmd s h =
    rw (get_or_create_user-ok cmd.to_user_id s, ◌>>=◌)
      (update_snapshot-ok cmd.to_user_id _ s.users (simp options_laws) h)

view-pay_receiver :
    (cmd : Command) (s : Shard)
    → known s.users cmd.user_id ≡ true
    → view (pay_receiver cmd s).1.users
      ≡ change cmd.to_user_id cmd.to_symbol
          (credit cmd.to_amount)
          (join cmd.to_user_id (view s.users))
unfolding pay_receiver
view-pay_receiver cmd s there =
    rw (get_or_create_user-ok cmd.to_user_id s, ◌>>=◌)
      (simp (
        view_laws,
        add_known-known cmd.user_id (add_known cmd.to_user_id (known s.users))
            (add_known-true cmd.user_id cmd.to_user_id (known s.users) there),
      ))

users-fee_spec : (cmd : Command) (l : Ledger) → (fee_spec cmd l).users ≡ l.users
unfolding fee_spec
users-fee_spec cmd l = ground arith

abbrev paid : Command → Ledger → Reply
paid cmd l = (
  ok tt,
  change cmd.to_user_id cmd.to_symbol (credit cmd.to_amount) (join cmd.to_user_id (fee_spec cmd l)),
)

-- The fee and the payment, from a state in which the payer is known.
settle :
    (cmd : Command) (s : Shard)
    → known s.users cmd.user_id ≡ true
    → is_nonempty (options_of s.users cmd.to_user_id) ≡ false
    → let (r, s') = pay_receiver cmd (take_fee cmd s).1 in
      (r, view s'.users) ≡ paid cmd (view s.users)
settle cmd s there plain =
    ap₂ (λ (r : Outcome (Unit {0})) (l : Ledger). (r, l))
      (pay_receiver-ok cmd s' (
        ap (λ (o : ℤ → Map Bytes OptionPosition). is_nonempty (o cmd.to_user_id))
          (options_of-take_fee cmd s)
        ∙ plain))
      (view-pay_receiver cmd s' (
          ap (λ (l : Ledger). l.users cmd.user_id) after_fee
          ∙ ap (λ (k : ℤ → Bool). k cmd.user_id) (users-fee_spec cmd (view s.users))
          ∙ there)
        ∙ ap
            (λ (l : Ledger).
              change cmd.to_user_id cmd.to_symbol (credit cmd.to_amount) (join cmd.to_user_id l))
            after_fee)
  where
    s' : Shard
    s' = (take_fee cmd s).1

    after_fee : view s'.users ≡ fee_spec cmd (view s.users)
    after_fee = view-take_fee cmd s there

-- The state once the payer's locked amount is spent.
abbrev unlocked : Command → Shard → Shard
unlocked cmd s = record s {
  users =
      update_asset cmd.user_id cmd.symbol (unlock cmd.amount)
        (ensure_asset cmd.user_id cmd.symbol s.users);
}

view-unlocked :
    (cmd : Command) (s : Shard)
    → known s.users cmd.user_id ≡ true
    → view (unlocked cmd s).users ≡ change cmd.user_id cmd.symbol (unlock cmd.amount) (view s.users)
view-unlocked cmd s there = simp (view_laws, add_known-known cmd.user_id (known s.users) there)

options_of-unlocked :
    (cmd : Command) (s : Shard) → options_of (unlocked cmd s).users ≡ options_of s.users
options_of-unlocked cmd s = simp options_laws

-- A transfer does what the ledger promises, if the receiver holds no options.
pub do_transfer-refines :
    (cmd : Command) (s : Shard)
    → is_nonempty (options_of s.users cmd.to_user_id) ≡ false
    → let (r, s') = do_transfer cmd s in (r, view s'.users) ≡ transfer_spec cmd (view s.users)
unfolding do_transfer transfer_spec
do_transfer-refines cmd s plain = elim (Bool-cases (known s.users cmd.user_id)) [
  | inl there ↦
      rw
        (
          known_lem cmd.user_id s.users,
          there,
          asset_at-ensure_asset cmd.user_id cmd.symbol s.users,
          ◌>>=◌,
        )
        (elim (Bool-cases (ltb_ℤ (sheet s.users cmd.user_id cmd.symbol).locked cmd.amount)) [
          | inl short ↦
              rw short (simp (view_laws, add_known-known cmd.user_id (known s.users) there))
          | inr covered ↦
              rw (covered, take_fee-ok cmd _, ◌>>=◌)
                (settle cmd (unlocked cmd s)
                    (ap (λ (l : Ledger). l.users cmd.user_id) (view-unlocked cmd s there) ∙ there)
                    (ap (λ (o : ℤ → Map Bytes OptionPosition). is_nonempty (o cmd.to_user_id))
                        (options_of-unlocked cmd s)
                      ∙ plain)
                  ∙ ap (paid cmd) (view-unlocked cmd s there))
        ])
  | inr missing ↦ rw (known_lem cmd.user_id s.users, missing, ◌>>=◌)
]

dispatch-refines :
    (t : CmdType) (cmd : Command) (s : Shard)
    → is_nonempty (options_of s.users cmd.to_user_id) ≡ false
    → let (r, s') = dispatch t cmd s in (r, view s'.users) ≡ dispatch_spec t cmd (view s.users)
unfolding dispatch dispatch_spec
dispatch-refines reserve cmd s plain = do_reserve-refines cmd s
dispatch-refines release cmd s plain = do_release-refines cmd s
dispatch-refines transfer cmd s plain = do_transfer-refines cmd s plain
dispatch-refines add_balance cmd s plain = do_add_balance-refines cmd s
dispatch-refines deduct_balance cmd s plain = do_deduct_balance-refines cmd s
dispatch-refines unset cmd s plain = refl

-- A command of any type does to a shard what the ledger promises, its error included, where the
-- user that it names as its receiver holds no options.
pub execute-refines :
    (cmd : Command) (s : Shard)
    → is_nonempty (options_of s.users cmd.to_user_id) ≡ false
    → let (r, s') = execute cmd s in (r, view s'.users) ≡ execute_spec cmd (view s.users)
unfolding execute execute_spec
execute-refines cmd s plain = dispatch-refines cmd.type_ cmd s plain
