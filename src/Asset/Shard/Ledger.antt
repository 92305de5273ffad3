-- ===== src/Asset/Shard/Ledger.antt =====
-- What the operations of a shard promise, on the view that forgets the representation: which
-- users are known, and the balances.
use little_cex.Prelude.{ℤ, pos, Bool, Bytes, if◌then◌else◌, ltb_ℤ, leb_ℤ, ◌&&◌}
use little_cex.Asset.Model.{Asset}
use little_cex.Asset.Shard.State.{
  Users, CmdType, reserve, release, transfer, add_balance, deduct_balance, unset, Command, Outcome,
  ok, err, user_not_found, insufficient_balance, insufficient_locked,
}
use little_cex.Asset.Shard.Operations.{credit, debit, lock, unlock, is_nonempty_text}
use little_cex.Asset.Shard.Balances.{Sheet, sheet, known, upd, add_known}

pub record Ledger : Type 0 where
  pub users : ℤ → Bool
  pub balances : Sheet

abbrev pub view : Users → Ledger
view users = record { users = known users; balances = sheet users }

abbrev pub Reply : Type 0
Reply = Outcome (Unit {0}) × Ledger

abbrev pub join : ℤ → Ledger → Ledger
join uid l = record l { users = add_known uid l.users }

abbrev pub change : ℤ → Bytes → (Asset → Asset) → Ledger → Ledger
change uid symbol f l = record l { balances = upd uid symbol f l.balances }

-- A reservation makes its user known, and moves the amount from available to locked if the
-- available balance covers it.
unfoldable pub reserve_spec : Command → Ledger → Reply
reserve_spec cmd l =
    let l' = join cmd.user_id l in
    if ltb_ℤ (l.balances cmd.user_id cmd.symbol).available cmd.amount
    then (err insufficient_balance, l')
    else (
      ok tt,
      change cmd.user_id cmd.symbol (lock cmd.amount)
          (change cmd.user_id cmd.symbol (debit cmd.amount) l'),
    )

unfoldable pub release_spec : Command → Ledger → Reply
release_spec cmd l =
    if l.users cmd.user_id
    then if ltb_ℤ (l.balances cmd.user_id cmd.symbol).locked cmd.amount
      then (err insufficient_locked, l)
      else (
        ok tt,
        change cmd.user_id cmd.symbol (credit cmd.amount)
            (change cmd.user_id cmd.symbol (unlock cmd.amount) l),
      )
    else (err user_not_found, l)

unfoldable pub fee_spec : Command → Ledger → Ledger
fee_spec cmd l =
    if ltb_ℤ (pos 0) cmd.fee
      && is_nonempty_text cmd.fee_asset
      && leb_ℤ cmd.fee (l.balances cmd.user_id cmd.fee_asset).available
    then change cmd.user_id cmd.fee_asset (debit cmd.fee) l
    else l

-- The payer's locked amount is spent, then the fee if the available balance covers it, and the
-- receiver, known from then on, is paid.
unfoldable pub transfer_spec : Command → Ledger → Reply
transfer_spec cmd l =
    if l.users cmd.user_id
    then if ltb_ℤ (l.balances cmd.user_id cmd.symbol).locked cmd.amount
      then (err insufficient_locked, l)
      else (
        ok tt,
        change cmd.to_user_id cmd.to_symbol (credit cmd.to_amount) (
            join cmd.to_user_id
              (fee_spec cmd (change cmd.user_id cmd.symbol (unlock cmd.amount) l))),
      )
    else (err user_not_found, l)

unfoldable pub add_balance_spec : Command → Ledger → Reply
add_balance_spec cmd l =
    (ok tt, change cmd.user_id cmd.symbol (credit cmd.amount) (join cmd.user_id l))

unfoldable pub deduct_balance_spec : Command → Ledger → Reply
deduct_balance_spec cmd l =
    if l.users cmd.user_id
    then if ltb_ℤ (l.balances cmd.user_id cmd.symbol).available cmd.amount
      then (err insufficient_balance, l)
      else (ok tt, change cmd.user_id cmd.symbol (debit cmd.amount) l)
    else (err user_not_found, l)

unfoldable pub dispatch_spec : CmdType → Command → Ledger → Reply
dispatch_spec reserve cmd l = reserve_spec cmd l
dispatch_spec release cmd l = release_spec cmd l
dispatch_spec transfer cmd l = transfer_spec cmd l
dispatch_spec add_balance cmd l = add_balance_spec cmd l
dispatch_spec deduct_balance cmd l = deduct_balance_spec cmd l
dispatch_spec unset cmd l = (ok tt, l)

unfoldable pub execute_spec : Command → Ledger → Reply
execute_spec cmd l = dispatch_spec cmd.type_ cmd l
