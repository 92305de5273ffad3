-- ===== src/Futures/Processor/Wrapped.antt =====
-- Orders to open a position whose value does not fit in 64 bits (OpenPosition of
-- pkg/futures/processor.go).
use little_cex.Prelude.{
  ℕ, suc, ◌-◌, ◌*◌, ◌/◌, ◌≤◌, ◌<◌, ◌≡◌, ◌∙◌, ℤ, pos, negsuc, pos_part, ◌<ℤ◌, none, Bytes, arith,
  mul64, quotient, -ℤ_parts, quotient-negsuc, int_eq, nat_eq, bytes_eq, pair_eq,
}
use little_cex.Store.{Table, IsTable}
use little_cex.Fund.Balances.{BalanceKey, BalanceRecord, available_of}
use little_cex.Futures.Spec.{ContractSpec, precision}
use little_cex.Futures.Positions.{PositionStore}
use little_cex.Futures.Processor.{OpenPositionRequest, Venue, required_margin, open_position}
use little_cex.Futures.Processor.Open.{row_of, open_position-IsOpened}

quotient_large : (m l : ℕ) → precision * l ≤ m → l ≤ m / precision
quotient_large m l h = omega arith

one_share : (k l : ℕ) → 0 < l → l ≤ k → 0 < k / l
one_share k l h g = grind arith

quotient_below : (n d : ℕ) → 0 < d → 0 < suc n / d → quotient (negsuc n) d ≡ negsuc (suc n / d - 1)
quotient_below n d h k = quotient-negsuc n d h ∙ ground arith

negative_margin :
    (z : ℤ) (l : ℕ)
    → 0 < l
    → z <ℤ negsuc (precision * l - 1)
    → quotient (quotient z precision) l <ℤ pos 0
negative_margin (pos n) l h w = absurd (omega arith)
negative_margin (negsuc n) l h w =
    let k : l ≤ suc n / precision = quotient_large (suc n) l (omega arith) in
    let s : suc (suc n / precision - 1) ≡ suc n / precision = omega arith in
    rw
      (
        quotient_below n precision (omega arith) (omega arith),
        quotient_below (suc n / precision - 1) l h (rw s (one_share (suc n / precision) l h k)),
      )
      (omega arith)

module _ {Con Bal Pos : Type 0} (contracts : Table Bytes ContractSpec Con)
    (balances : Table BalanceKey BalanceRecord Bal) (store : PositionStore Pos)
    (law : IsTable balances) where
  -- An order whose value, the product of quantity and price, wraps around to a negative `int64` far
  -- enough below 0 needs a negative margin: if it is accepted, the user has more available than
  -- before.
  pub open_position-wrapped :
      (r : OpenPositionRequest) (v v' : Venue Con Bal Pos)
      → mul64 r.qty r.price <ℤ negsuc (precision * pos_part r.leverage - 1)
      → open_position contracts balances store r v ≡ (none, v')
      → (spec : ContractSpec) × (available_of
            (row_of contracts balances store law r.user_id spec.settle_currency v)
          <ℤ available_of (row_of contracts balances store law r.user_id spec.settle_currency v'))
  unfolding required_margin
  open_position-wrapped r v v' w h =
      let (spec, o) = open_position-IsOpened contracts balances store law r v v' h in
      let below : required_margin r <ℤ pos 0 =
        negative_margin (mul64 r.qty r.price) (pos_part r.leverage) (omega (arith, o.some_leverage))
          w in
      (
        spec,
        rw o.moved.available (
            omega (
              arith,
              below,
              -ℤ_parts
                  (available_of
                    (row_of contracts balances store law r.user_id spec.settle_currency v))
                  (required_margin r),
            )),
      )
