-- ===== src/Asset/Shard/Effects.antt =====
-- What single commands do to the balances: rejections, reservations and releases.
use little_cex.Prelude.{
  ℤ, pos, ◌≡◌, refl, sym, ap, ◌∙◌, subst, true, false, ◌&&◌, inl, inr, Bytes, ◌≤ℤ◌, ltb_ℤ, arith,
  eqb_ℤ, eqb_ℤ_iff, bytes_beq, bytes_beq_iff, Bool-cases,
}
use little_cex.Asset.Model.{Asset, is_nonempty}
use little_cex.Asset.Shard.State.{
  Shard, CmdType, reserve, release, transfer, add_balance, deduct_balance, unset, Command, err,
  Error,
}
use little_cex.Asset.Shard.Operations.{credit, debit, lock, unlock, do_reserve, do_release}
use little_cex.Asset.Shard.Handler.{execute}
use little_cex.Asset.Shard.Balances.{Sheet, upd, sheet}
use little_cex.Asset.Shard.Options.{options_of}
use little_cex.Asset.Shard.Ledger.{
  Ledger, Reply, view, reserve_spec, release_spec, transfer_spec, add_balance_spec,
  deduct_balance_spec, dispatch_spec, execute_spec,
}
use little_cex.Asset.Shard.Refine.{do_reserve-refines, do_release-refines}
use little_cex.Asset.Shard.Execute.{execute-refines}
use little_cex.Asset.Shard.Sound.{IsSound, holding, holding-reserve, holding-release}

dispatch_spec-err :
    (t : CmdType) (cmd : Command) (l : Ledger) (e : Error)
    → (dispatch_spec t cmd l).0 ≡ err e
    → (dispatch_spec t cmd l).1.balances ≡ l.balances
unfolding dispatch_spec reserve_spec release_spec transfer_spec add_balance_spec deduct_balance_spec
dispatch_spec-err reserve cmd l e h = ground arith
dispatch_spec-err release cmd l e h = ground arith
dispatch_spec-err transfer cmd l e h = ground arith
dispatch_spec-err add_balance cmd l e h = cc
dispatch_spec-err deduct_balance cmd l e h = ground arith
dispatch_spec-err unset cmd l e h = cc

-- Where the user that the command names as its receiver holds no options, a command that is
-- refused leaves every balance as it was.
pub execute-err :
    (cmd : Command) (s : Shard) (e : Error)
    → is_nonempty (options_of s.users cmd.to_user_id) ≡ false
    → (execute cmd s).0 ≡ err e
    → sheet (execute cmd s).1.users ≡ sheet s.users
execute-err cmd s e plain h =
    ap (λ (r : Reply). r.1.balances) (execute-refines cmd s plain)
    ∙ (unfold execute_spec in
        dispatch_spec-err cmd.type_ cmd (view s.users) e
          (sym (ap (λ (r : Reply). r.0) (execute-refines cmd s plain)) ∙ h))

holding-upd :
    (uid : ℤ) (symbol : Bytes) (f g : Asset → Asset) (b : Sheet)
    → holding (g (f (b uid symbol))) ≡ holding (b uid symbol)
    → (u : ℤ) (y : Bytes) → holding (upd uid symbol g (upd uid symbol f b) u y) ≡ holding (b u y)
unfolding upd
holding-upd uid symbol f g b h u y = elim (Bool-cases (eqb_ℤ u uid && bytes_beq y symbol)) [
  | inl here ↦ rw here (subst (λ (a : Asset). holding (g (f a)) ≡ holding a) (same_place here) h)
  | inr other ↦ rw other refl
]
  where
    same_place : eqb_ℤ u uid && bytes_beq y symbol ≡ true → b uid symbol ≡ b u y
    same_place t = ground (arith, eqb_ℤ_iff u uid, bytes_beq_iff y symbol)

reserve_spec-holding :
    (cmd : Command) (l : Ledger)
    → IsSound l
    → pos 0 ≤ℤ cmd.amount
    → (u : ℤ) (y : Bytes) → holding ((reserve_spec cmd l).1.balances u y) ≡ holding (l.balances u y)
unfolding reserve_spec
reserve_spec-holding cmd l s p u y =
    elim (Bool-cases (ltb_ℤ (l.balances cmd.user_id cmd.symbol).available cmd.amount)) [
      | inl short ↦ rw short refl
      | inr covered ↦ rw covered (
          holding-upd cmd.user_id cmd.symbol (debit cmd.amount) (lock cmd.amount) l.balances
            (holding-reserve cmd.amount _ (s.each cmd.user_id cmd.symbol) p (ground arith)) u y)
    ]

release_spec-holding :
    (cmd : Command) (l : Ledger)
    → IsSound l
    → pos 0 ≤ℤ cmd.amount
    → (u : ℤ) (y : Bytes) → holding ((release_spec cmd l).1.balances u y) ≡ holding (l.balances u y)
unfolding release_spec
release_spec-holding cmd l s p u y = elim (Bool-cases (l.users cmd.user_id)) [
  | inl there ↦
      rw there (elim (Bool-cases (ltb_ℤ (l.balances cmd.user_id cmd.symbol).locked cmd.amount)) [
        | inl short ↦ rw short refl
        | inr covered ↦ rw covered (
            holding-upd cmd.user_id cmd.symbol (unlock cmd.amount) (credit cmd.amount) l.balances
              (holding-release cmd.amount _ (s.each cmd.user_id cmd.symbol) p (ground arith)) u y)
      ])
  | inr missing ↦ rw missing refl
]

-- From balances that are sound, reserving or releasing an amount that is not negative changes no
-- user's holding, available plus locked, of any asset; refused or not.
holding-reserve-release :
    (cmd : Command) (s : Shard)
    → IsSound (view s.users)
    → pos 0 ≤ℤ cmd.amount
    → (u : ℤ) (y : Bytes)
    → (holding (sheet (do_reserve cmd s).1.users u y) ≡ holding (sheet s.users u y))
      × (holding (sheet (do_release cmd s).1.users u y) ≡ holding (sheet s.users u y))
holding-reserve-release cmd s sound p u y = (
  ap (λ (r : Reply). holding (r.1.balances u y)) (do_reserve-refines cmd s)
      ∙ reserve_spec-holding cmd (view s.users) sound p u y,
  ap (λ (r : Reply). holding (r.1.balances u y)) (do_release-refines cmd s)
      ∙ release_spec-holding cmd (view s.users) sound p u y,
)
