-- ===== src/Asset/Shard/Sound.antt =====
-- The invariant of the balances: none is negative, and each user's total of an asset fits an
-- `int64`.
use little_cex.Prelude.{
  ℤ, pos, ◌+◌, ◌^◌, ◌<◌, ◌≡◌, Bytes, pos_part, neg_part, ◌≤ℤ◌, ◌+ℤ◌, ◌-ℤ◌, add64-eq-+ℤ, sub64-eq--ℤ,
  arith, eq_of_parts, +ℤ_parts, -ℤ_parts,
}
use little_cex.Asset.Model.{Asset}
use little_cex.Asset.Shard.Operations.{credit, debit, lock, unlock}
use little_cex.Asset.Shard.Ledger.{Ledger}

pub record IsSoundAsset (a : Asset) : Type 0 where
  pub available_nonneg : pos 0 ≤ℤ a.available
  pub locked_nonneg : pos 0 ≤ℤ a.locked
  pub fits :
      pos_part a.available + pos_part a.locked < 2 ^ 63 + neg_part a.available + neg_part a.locked

pub record IsSound (l : Ledger) : Type 0 where
  pub each : (u : ℤ) (y : Bytes) → IsSoundAsset (l.balances u y)

-- The whole amount of the asset, as an integer.
abbrev pub holding : Asset → ℤ
holding a = a.available +ℤ a.locked

pub reserve-IsSoundAsset :
    (x : ℤ) (a : Asset)
    → IsSoundAsset a
    → pos 0 ≤ℤ x
    → x ≤ℤ a.available
    → IsSoundAsset (lock x (debit x a))
reserve-IsSoundAsset x a s p q = ground (
  arith,
  sub64-eq--ℤ a.available x,
  add64-eq-+ℤ a.locked x,
  +ℤ_parts a.locked x,
  -ℤ_parts a.available x,
)

pub holding-reserve :
    (x : ℤ) (a : Asset)
    → IsSoundAsset a
    → pos 0 ≤ℤ x
    → x ≤ℤ a.available
    → holding (lock x (debit x a)) ≡ holding a
holding-reserve x a s p q = grind (
  arith,
  eq_of_parts,
  sub64-eq--ℤ a.available x,
  add64-eq-+ℤ a.locked x,
  +ℤ_parts a.locked x,
  -ℤ_parts a.available x,
  +ℤ_parts a.available a.locked,
  +ℤ_parts (a.available -ℤ x) (a.locked +ℤ x),
)

pub release-IsSoundAsset :
    (x : ℤ) (a : Asset)
    → IsSoundAsset a
    → pos 0 ≤ℤ x
    → x ≤ℤ a.locked
    → IsSoundAsset (credit x (unlock x a))
release-IsSoundAsset x a s p q = ground (
  arith,
  sub64-eq--ℤ a.locked x,
  add64-eq-+ℤ a.available x,
  +ℤ_parts a.available x,
  -ℤ_parts a.locked x,
)

pub unlock-IsSoundAsset :
    (x : ℤ) (a : Asset) → IsSoundAsset a → pos 0 ≤ℤ x → x ≤ℤ a.locked → IsSoundAsset (unlock x a)
unlock-IsSoundAsset x a s p q = ground (arith, sub64-eq--ℤ a.locked x, -ℤ_parts a.locked x)

pub debit-IsSoundAsset :
    (x : ℤ) (a : Asset) → IsSoundAsset a → pos 0 ≤ℤ x → x ≤ℤ a.available → IsSoundAsset (debit x a)
debit-IsSoundAsset x a s p q = ground (arith, sub64-eq--ℤ a.available x, -ℤ_parts a.available x)

-- The amount can be added to what the asset holds.
abbrev pub HasRoom : ℤ → Asset → Type 0
HasRoom x a =
    pos_part a.available + pos_part a.locked + pos_part x
    < 2 ^ 63 + neg_part a.available + neg_part a.locked + neg_part x

pub credit-IsSoundAsset :
    (x : ℤ) (a : Asset) → IsSoundAsset a → pos 0 ≤ℤ x → HasRoom x a → IsSoundAsset (credit x a)
credit-IsSoundAsset x a s p q = ground (arith, add64-eq-+ℤ a.available x, +ℤ_parts a.available x)

pub holding-release :
    (x : ℤ) (a : Asset)
    → IsSoundAsset a
    → pos 0 ≤ℤ x
    → x ≤ℤ a.locked
    → holding (credit x (unlock x a)) ≡ holding a
holding-release x a s p q = grind (
  arith,
  eq_of_parts,
  sub64-eq--ℤ a.locked x,
  add64-eq-+ℤ a.available x,
  +ℤ_parts a.available x,
  -ℤ_parts a.locked x,
  +ℤ_parts a.available a.locked,
  +ℤ_parts (a.available +ℤ x) (a.locked -ℤ x),
)
