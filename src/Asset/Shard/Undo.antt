-- ===== src/Asset/Shard/Undo.antt =====
-- A reservation and its release cancel out.
use mathlib.Core.Path.{fun_ext}
use little_cex.Prelude.{
  ℤ, pos, ◌≡◌, refl, ap, ◌∙◌, subst, Bool, true, false, ◌&&◌, inl, inr, Bytes, ◌≤ℤ◌, ltb_ℤ, ◌+ℤ◌,
  ◌-ℤ◌, add64-eq-+ℤ, sub64-eq--ℤ, arith, eqb_ℤ, eqb_ℤ_iff, bytes_beq, bytes_beq_iff, Bool-cases,
  eq_of_parts, +ℤ_parts, -ℤ_parts,
}
use little_cex.Asset.Model.{Asset}
use little_cex.Asset.Shard.State.{Shard, Command, ok}
use little_cex.Asset.Shard.Operations.{credit, debit, lock, unlock, do_reserve, do_release}
use little_cex.Asset.Shard.Balances.{add_known, Sheet, upd, sheet}
use little_cex.Asset.Shard.Ledger.{Ledger, Reply, view, reserve_spec, release_spec}
use little_cex.Asset.Shard.Refine.{do_reserve-refines, do_release-refines}
use little_cex.Asset.Shard.Sound.{IsSoundAsset, IsSound}

upd-upd :
    (uid : ℤ) (symbol : Bytes) (f g : Asset → Asset) (b : Sheet)
    → upd uid symbol g (upd uid symbol f b) ≡ upd uid symbol (λ a. g (f a)) b
unfolding upd
upd-upd uid symbol f g b = fun_ext (λ u. fun_ext (λ y. ground arith))

upd_unchanged :
    (uid : ℤ) (symbol : Bytes) (f : Asset → Asset) (b : Sheet)
    → f (b uid symbol) ≡ b uid symbol
    → upd uid symbol f b ≡ b
unfolding upd
upd_unchanged uid symbol f b h = fun_ext (λ u. fun_ext (λ y.
    elim (Bool-cases (eqb_ℤ u uid && bytes_beq y symbol)) [
      | inl here ↦ rw here (subst (λ (a : Asset). f a ≡ a) (same_place u y here) h)
      | inr other ↦ rw other refl
    ]))
  where
    same_place :
        (u : ℤ) (y : Bytes) → eqb_ℤ u uid && bytes_beq y symbol ≡ true → b uid symbol ≡ b u y
    same_place u y t = ground (arith, eqb_ℤ_iff u uid, bytes_beq_iff y symbol)

upd_self :
    (uid : ℤ) (symbol : Bytes) (f : Asset → Asset) (b : Sheet)
    → upd uid symbol f b uid symbol ≡ f (b uid symbol)
unfolding upd
upd_self uid symbol f b = ground (arith, eqb_ℤ_iff uid uid, bytes_beq_iff symbol symbol)

add_known_self : (uid : ℤ) (k : ℤ → Bool) → add_known uid k uid ≡ true
unfolding add_known
add_known_self uid k = ground (arith, eqb_ℤ_iff uid uid)

abbrev reserved : ℤ → Asset → Asset
reserved x a = lock x (debit x a)

abbrev released : ℤ → Asset → Asset
released x a = credit x (unlock x a)

released-reserved :
    (x : ℤ) (a : Asset)
    → IsSoundAsset a
    → pos 0 ≤ℤ x
    → x ≤ℤ a.available
    → released x (reserved x a) ≡ a
released-reserved x a s p q = grind (
  arith,
  eq_of_parts,
  sub64-eq--ℤ a.available x,
  add64-eq-+ℤ a.locked x,
  sub64-eq--ℤ (a.locked +ℤ x) x,
  add64-eq-+ℤ (a.available -ℤ x) x,
  +ℤ_parts a.locked x,
  -ℤ_parts a.available x,
  -ℤ_parts (a.locked +ℤ x) x,
  +ℤ_parts (a.available -ℤ x) x,
)

enough_locked :
    (x : ℤ) (a : Asset)
    → IsSoundAsset a
    → pos 0 ≤ℤ x
    → x ≤ℤ a.available
    → ltb_ℤ (reserved x a).locked x ≡ false
enough_locked x a s p q = ground (arith, add64-eq-+ℤ a.locked x, +ℤ_parts a.locked x)

release_spec-reserve_spec :
    (cmd : Command) (l : Ledger)
    → IsSound l
    → pos 0 ≤ℤ cmd.amount
    → cmd.amount ≤ℤ (l.balances cmd.user_id cmd.symbol).available
    → let (r, l') = release_spec cmd (reserve_spec cmd l).1 in
      (r ≡ ok tt) × (l'.balances ≡ l.balances)
unfolding reserve_spec release_spec
release_spec-reserve_spec cmd l s p q =
    rw (covered, add_known_self cmd.user_id l.users, place, still_locked)
      (
        refl,
        rw (upd-upd, upd-upd, upd-upd) (upd_unchanged cmd.user_id cmd.symbol _ l.balances back),
      )
  where
    a : Asset
    a = l.balances cmd.user_id cmd.symbol

    covered : ltb_ℤ (l.balances cmd.user_id cmd.symbol).available cmd.amount ≡ false
    covered = ground arith

    place :
        upd cmd.user_id cmd.symbol
          (lock cmd.amount)
          (upd cmd.user_id cmd.symbol (debit cmd.amount) l.balances)
          cmd.user_id
          cmd.symbol
        ≡ reserved cmd.amount (l.balances cmd.user_id cmd.symbol)
    place =
        upd_self cmd.user_id cmd.symbol (lock cmd.amount)
          (upd cmd.user_id cmd.symbol (debit cmd.amount) l.balances)
        ∙ ap (lock cmd.amount) (upd_self cmd.user_id cmd.symbol (debit cmd.amount) l.balances)

    still_locked :
        ltb_ℤ (reserved cmd.amount (l.balances cmd.user_id cmd.symbol)).locked cmd.amount ≡ false
    still_locked =
        enough_locked cmd.amount (l.balances cmd.user_id cmd.symbol) (s.each cmd.user_id cmd.symbol)
          p q

    back :
        released cmd.amount (reserved cmd.amount (l.balances cmd.user_id cmd.symbol))
        ≡ l.balances cmd.user_id cmd.symbol
    back =
        released-reserved cmd.amount (l.balances cmd.user_id cmd.symbol)
          (s.each cmd.user_id cmd.symbol) p q

-- From sound balances, releasing what has just been reserved, an amount that is not negative and
-- that the available balance covered, succeeds and brings every balance back.
pub do_release-do_reserve :
    (cmd : Command) (s : Shard)
    → IsSound (view s.users)
    → pos 0 ≤ℤ cmd.amount
    → cmd.amount ≤ℤ (sheet s.users cmd.user_id cmd.symbol).available
    → let (r, s') = do_release cmd (do_reserve cmd s).1 in
      (r ≡ ok tt) × (sheet s'.users ≡ sheet s.users)
do_release-do_reserve cmd s sound p q =
    (ap (λ (r : Reply). r.0) both ∙ spec.0, ap (λ (r : Reply). r.1.balances) both ∙ spec.1)
  where
    both :
        (
          (do_release cmd (do_reserve cmd s).1).0,
          view (do_release cmd (do_reserve cmd s).1).1.users,
        )
        ≡ release_spec cmd (reserve_spec cmd (view s.users)).1
    both =
        do_release-refines cmd (do_reserve cmd s).1
        ∙ ap (λ (r : Reply). release_spec cmd r.1) (do_reserve-refines cmd s)

    spec :
        let (r, l') = release_spec cmd (reserve_spec cmd (view s.users)).1 in
        (r ≡ ok tt) × (l'.balances ≡ sheet s.users)
    spec = release_spec-reserve_spec cmd (view s.users) sound p q
