-- ===== src/Spot/Unfilled.antt =====
-- An order that was placed and is then canceled before it trades (PlaceOrder and handleCancel of
-- pkg/spot/processor.go).
use little_cex.Prelude.{
  ℕ, ◌*◌, ◌/◌, ◌<◌, ◌≡◌, ◌≢◌, inl, inr, ◌∙◌, refl, ap, ℤ, pos, negsuc, ◌≤ℤ◌, ◌<ℤ◌, true, Option,
  none, some, List, Bytes, if◌then◌else◌, ltb_ℤ, arith, add64, sub64, mul64, div64, quotient,
  Bool-cases, Option-cases, lookup, mul64-pos, sub64-eq--ℤ, div64-pos, eq_of_parts, -ℤ_parts,
  lookup-insert_self, int_eq, nat_eq, bytes_eq, pair_eq,
}
use little_cex.Asset.Shard.State.{Shard, ok, err, panic}
use little_cex.Asset.Engine.{Answer, reserve_asset, release_asset, precision}
use little_cex.Mtrade.Order.{Order, side_beq, buy}
use little_cex.Spot.{
  SpotProcessor, OrderMeta, Ending, SpotError, place_order, parse_symbol, submit_order, order_meta,
  reserved_in, reserved_then, reserve_total, principal, fee_of, release_then, unless_panic, forget,
  invalid_symbol,
}
use little_cex.Spot.Events.{fee_release, release_amount, handle_cancel}

whole : (n : ℕ) → 0 < n → n * 10000 / n ≡ 10000
whole n h = grind arith

-- All of a quantity is 10000 parts of 10000, and all of the fee.
whole_fee :
    (q f : ℤ)
    → pos 0 <ℤ q
    → q ≤ℤ pos 922337203685477
    → pos 0 ≤ℤ f
    → f ≤ℤ pos 922337203685477
    → (div64 (mul64 q (pos 10000)) q ≡ some (pos 10000))
      × (quotient (mul64 f (pos 10000)) 10000 ≡ f)
unfolding quotient
whole_fee (pos q) (pos f) a b c d = (
  rw (mul64-pos q 10000 (omega arith)) (
      div64-pos (q * 10000) q (omega arith) ∙ ap (λ (n : ℕ). some (pos n)) (whole q (omega arith))),
  rw (mul64-pos f 10000 (omega arith)) (ap pos (omega arith)),
)
whole_fee (pos q) (negsuc f) a b c d = absurd (omega arith)
whole_fee (negsuc q) f a b c d = absurd (omega arith)

nothing_filled : (q : ℤ) → pos 0 <ℤ q → q ≤ℤ pos 922337203685477 → sub64 q (pos 0) ≡ q
nothing_filled q a b =
    sub64-eq--ℤ q (pos 0) (omega arith) (omega arith)
    ∙ eq_of_parts _ _ (omega (arith, -ℤ_parts q (pos 0)))

-- The amounts for which the arithmetic of a cancellation does not wrap around.
pub record IsModest (o : Order) (rate : ℤ) : Type 0 where
  pub some_qty : pos 0 <ℤ o.qty
  pub qty_bound : o.qty ≤ℤ pos 922337203685477
  pub fee_not_negative : pos 0 ≤ℤ fee_of (principal o) rate
  pub fee_bound : fee_of (principal o) rate ≤ℤ pos 922337203685477
  pub some_total : pos 0 <ℤ reserve_total o rate

with_fee :
    (o : Order) (fee : ℤ)
    → sub64 o.qty o.filled_qty ≡ o.qty
    → (if side_beq o.side buy
        then add64 (mul64 (quotient o.price precision) (sub64 o.qty o.filled_qty)) fee
        else add64 (sub64 o.qty o.filled_qty) fee)
      ≡ add64 (principal o) fee
unfolding principal
with_fee o fee full = elim (Bool-cases (side_beq o.side buy)) [
  | inl t ↦ rw t (ap (λ (z : ℤ). add64 (mul64 (quotient o.price precision) z) fee) full)
  | inr t ↦ rw t (ap (λ (z : ℤ). add64 z fee) full)
]

release_amount_unfilled :
    (o : Order) (base quote : Bytes) (rate : ℤ)
    → IsModest o rate
    → o.filled_qty ≡ pos 0
    → release_amount (order_meta o base quote rate) o ≡ some (reserve_total o rate)
unfolding release_amount fee_release order_meta reserve_total
release_amount_unfilled o base quote rate m z =
    let (ratio, fee) =
      whole_fee o.qty (fee_of (principal o) rate) m.some_qty m.qty_bound m.fee_not_negative
        m.fee_bound in
    let full : sub64 o.qty o.filled_qty ≡ o.qty =
      ap (sub64 o.qty) z ∙ nothing_filled o.qty m.some_qty m.qty_bound in
    rw (full, ratio, fee, release_amount, fee_release)
      (ap (λ (x : ℤ). some x) (with_fee o (fee_of (principal o) rate) full))

shards-release_then :
    {A : Type 0} (a : A) (after : SpotProcessor → SpotProcessor) (uid : ℤ) (symbol : Bytes)
    (amount id : ℤ) (v : SpotProcessor)
    → ((x : SpotProcessor) → (after x).shards ≡ x.shards)
    → (release_then a after uid symbol amount id v).1.shards
      ≡ (release_asset uid symbol amount id v.shards).1
unfolding release_then
shards-release_then a after uid symbol amount id v keeps =
    elim (Option-cases (unless_panic (release_asset uid symbol amount id v.shards).0 a)) [
      | inl e ↦ rw (e, release_then) refl
      | inr (b, e) ↦ rw (e, release_then) (keeps _)
    ]

not_taken :
    (r : Answer) (e : SpotError)
    → ◌≢◌ {A = Option (Option SpotError)} (unless_panic r (some e)) (some none)
not_taken panic e = λ w. cc
not_taken (ok x) e = λ w. cc
not_taken (err x) e = λ w. cc

release_then-fails :
    (e : SpotError) (after : SpotProcessor → SpotProcessor) (uid : ℤ) (symbol : Bytes)
    (amount id : ℤ) (v v' : SpotProcessor)
    → release_then (some e) after uid symbol amount id v ≢ (some none, v')
unfolding release_then
release_then-fails e after uid symbol amount id v v' w =
    elim (Option-cases (unless_panic (release_asset uid symbol amount id v.shards).0 (some e))) [
      | inl n ↦ absurd (ground arith)
      | inr (b, n) ↦
          not_taken (release_asset uid symbol amount id v.shards).0 e
            (n ∙ ap (λ (x : Ending). x.0) (rw (n, release_then) at w))
    ]

cancel_releases :
    (o : Order) (base quote : Bytes) (w : SpotProcessor) (rate : ℤ)
    → IsModest o rate
    → o.filled_qty ≡ pos 0
    → lookup o.id w.order_index ≡ some (order_meta o base quote rate)
    → (handle_cancel (some o) w).1.shards
      ≡ (release_asset o.user_id (reserved_in o base quote) (reserve_total o rate) o.id w.shards).1
unfolding handle_cancel order_meta
cancel_releases o base quote w rate m z e =
    let t : ltb_ℤ (pos 0) (reserve_total o rate) ≡ true = ground (arith, m.some_total) in
    rw (e, release_amount_unfilled o base quote rate m z, t, handle_cancel)
      (shards-release_then tt (forget o.id) o.user_id (reserved_in o base quote)
        (reserve_total o rate) o.id w (λ x. refl))

-- Where the order was taken: what was reserved, and what is remembered.
submitted_order :
    (o : Order) (base quote : Bytes) (v v' : SpotProcessor)
    → submit_order o base quote v ≡ (some none, v')
    → (v'.shards ≡ v.shards)
      × (lookup o.id v'.order_index ≡ some (order_meta o base quote v.taker_fee_rate))
unfolding submit_order
submitted_order o base quote v v' h = elim (Bool-cases (v.queue_takes 0)) [
  | inl t ↦ ground (
    arith,
    lookup-insert_self {V = OrderMeta} o.id (order_meta o base quote v.taker_fee_rate)
        v.order_index,
  )
  | inr t ↦ absurd (release_then-fails _ _ _ _ _ _ _ _ (rw (t, submit_order) at h))
]

-- An order that was placed, with amounts that do not wrap around, and is canceled before any of it was
-- traded: the cancellation asks the account engine to release, for the same user, the same asset and
-- exactly the amount that placing it had asked the engine to reserve, fee included.
pub handle_cancel-place_order :
    (o : Order) (v v' w : SpotProcessor)
    → IsModest o v.taker_fee_rate
    → o.filled_qty ≡ pos 0
    → place_order o v ≡ (some none, v')
    → lookup o.id w.order_index ≡ lookup o.id v'.order_index
    → (asset : Bytes) × (total : ℤ) × (v'.shards
        ≡ (reserve_asset o.user_id asset total o.id v.shards).1)
      × ((handle_cancel (some o) w).1.shards
          ≡ (release_asset o.user_id asset total o.id w.shards).1)
unfolding place_order
handle_cancel-place_order o v v' w m z h e = parsed (parse_symbol o.symbol) h
  where
    taken :
        (base quote : Bytes) (r : Answer × List Shard)
        → reserved_then o base quote r v ≡ (some none, v')
        → (v'.shards ≡ r.1)
          × (lookup o.id v'.order_index ≡ some (order_meta o base quote v.taker_fee_rate))
    taken base quote (ok none, shards) q =
        submitted_order o base quote (record v { shards = shards }) v' q
    taken base quote (ok (some x), shards) q = absurd (ground arith)
    taken base quote (err x, shards) q = absurd (ground arith)
    taken base quote (panic, shards) q = absurd (ground arith)

    parsed :
        (c : Option (Bytes × Bytes))
        → ◌≡◌ {A = Ending}
            (elim c [
              | none ↦ (some (some invalid_symbol), v)
              | some (base, quote) ↦
                  reserved_then o base quote
                    (reserve_asset o.user_id
                      (reserved_in o base quote)
                      (reserve_total o v.taker_fee_rate)
                      o.id
                      v.shards)
                    v
            ])
            (some none, v')
        → (asset : Bytes) × (total : ℤ) × (v'.shards
            ≡ (reserve_asset o.user_id asset total o.id v.shards).1)
          × ((handle_cancel (some o) w).1.shards
              ≡ (release_asset o.user_id asset total o.id w.shards).1)
    parsed none q = absurd (ground arith)
    parsed (some (base, quote)) q =
        let (kept, meta) = taken base quote _ q in
        (
          reserved_in o base quote,
          reserve_total o v.taker_fee_rate,
          kept,
          cancel_releases o base quote w v.taker_fee_rate m z (e ∙ meta),
        )
