-- ===== src/Asset/Shard/Refine.antt =====
-- Each operation of a shard does what the ledger promises, errors included.
use little_cex.Prelude.{◌≡◌, ltb_ℤ, Bool-cases, inl, inr}
use little_cex.Asset.Shard.State.{Shard, Command, ◌>>=◌}
use little_cex.Asset.Shard.Operations.{do_reserve, do_release, do_add_balance, do_deduct_balance}
use little_cex.Asset.Shard.Balances.{
  sheet, known, view_laws, get_or_create_user-ok, asset_at-get_or_create_user,
  asset_at-ensure_asset, known_lem, add_known-known,
}
use little_cex.Asset.Shard.Ledger.{
  view, reserve_spec, release_spec, add_balance_spec, deduct_balance_spec,
}

pub do_add_balance-refines :
    (cmd : Command) (s : Shard)
    → let (r, s') = do_add_balance cmd s in (r, view s'.users) ≡ add_balance_spec cmd (view s.users)
unfolding do_add_balance add_balance_spec
do_add_balance-refines cmd s = rw (get_or_create_user-ok cmd.user_id s, ◌>>=◌) (simp view_laws)

pub do_reserve-refines :
    (cmd : Command) (s : Shard)
    → let (r, s') = do_reserve cmd s in (r, view s'.users) ≡ reserve_spec cmd (view s.users)
unfolding do_reserve reserve_spec
do_reserve-refines cmd s =
    rw
      (
        get_or_create_user-ok cmd.user_id s,
        asset_at-get_or_create_user cmd.user_id cmd.symbol s,
        ◌>>=◌,
      )
      (elim (Bool-cases (ltb_ℤ (sheet s.users cmd.user_id cmd.symbol).available cmd.amount)) [
        | inl short ↦ rw short (simp view_laws)
        | inr covered ↦ rw covered (simp view_laws)
      ])

pub do_deduct_balance-refines :
    (cmd : Command) (s : Shard)
    → let (r, s') = do_deduct_balance cmd s in
      (r, view s'.users) ≡ deduct_balance_spec cmd (view s.users)
unfolding do_deduct_balance deduct_balance_spec
do_deduct_balance-refines cmd s = elim (Bool-cases (known s.users cmd.user_id)) [
  | inl there ↦
      rw
        (
          known_lem cmd.user_id s.users,
          there,
          asset_at-ensure_asset cmd.user_id cmd.symbol s.users,
          ◌>>=◌,
        )
        (elim (Bool-cases (ltb_ℤ (sheet s.users cmd.user_id cmd.symbol).available cmd.amount)) [
          | inl short ↦
              rw short (simp (view_laws, add_known-known cmd.user_id (known s.users) there))
          | inr covered ↦
              rw covered (simp (view_laws, add_known-known cmd.user_id (known s.users) there))
        ])
  | inr missing ↦ rw (known_lem cmd.user_id s.users, missing, ◌>>=◌)
]

pub do_release-refines :
    (cmd : Command) (s : Shard)
    → let (r, s') = do_release cmd s in (r, view s'.users) ≡ release_spec cmd (view s.users)
unfolding do_release release_spec
do_release-refines cmd s = elim (Bool-cases (known s.users cmd.user_id)) [
  | inl there ↦
      rw
        (
          known_lem cmd.user_id s.users,
          there,
          asset_at-ensure_asset cmd.user_id cmd.symbol s.users,
          ◌>>=◌,
        )
        (elim (Bool-cases (ltb_ℤ (sheet s.users cmd.user_id cmd.symbol).locked cmd.amount)) [
          | inl short ↦
              rw short (simp (view_laws, add_known-known cmd.user_id (known s.users) there))
          | inr covered ↦
              rw covered (simp (view_laws, add_known-known cmd.user_id (known s.users) there))
        ])
  | inr missing ↦ rw (known_lem cmd.user_id s.users, missing, ◌>>=◌)
]
