-- ===== src/Futures/Processor/Partial.antt =====
-- Orders that are filled in more than one trade (applyFill and handleTrade of
-- pkg/futures/processor.go).
use little_cex.Prelude.{
  ◌≡◌, inl, inr, ◌∙◌, refl, ap, ℤ, true, Option, none, some, Bytes, Map, arith, Bool-cases,
  Option-cases, lookup, erase, same_or_not, lookup-erase_self, lookup-erase_ne, int_eq, nat_eq,
  bytes_eq, pair_eq,
}
use little_cex.Store.{Table}
use little_cex.Fund.Balances.{BalanceKey, BalanceRecord}
use little_cex.Futures.Spec.{ContractSpec}
use little_cex.Futures.Positions.{PositionStore}
use little_cex.Futures.Processor.{OrderMeta, Venue, get_contract}
use little_cex.Futures.Processor.Fills.{
  apply_fill, handle_close_fill, handle_open_fill, handle_trade, publish_trade, spec_of,
}
use little_cex.Mtrade.Matcher.{Trade}

lookup-erase :
    {V : Type 0} (j k : ℤ) (m : Map ℤ V) → lookup j m ≡ none → lookup j (erase k m) ≡ none
lookup-erase j k m h = elim (same_or_not j k) [
  | inl same ↦ rw same (lookup-erase_self k m)
  | inr other ↦ lookup-erase_ne j k m other ∙ h
]

module _ {Con Bal Pos : Type 0} (contracts : Table Bytes ContractSpec Con)
    (balances : Table BalanceKey BalanceRecord Bal) (store : PositionStore Pos) where
  metas-handle_close_fill :
      (spec : Option ContractSpec) (m : OrderMeta) (t : Trade) (v : Venue Con Bal Pos)
      → ((handle_close_fill contracts balances store spec m t v).metas ≡ v.metas)
        × ((handle_close_fill contracts balances store spec m t v).publishes ≡ v.publishes)
  unfolding handle_close_fill
  metas-handle_close_fill none m t v = ground arith
  metas-handle_close_fill (some spec) m t v = ground arith

  metas-handle_open_fill :
      (m : OrderMeta) (t : Trade) (v v' : Venue Con Bal Pos)
      → handle_open_fill contracts balances store m t v ≡ some v'
      → (v'.metas ≡ v.metas) × (v'.publishes ≡ v.publishes)
  unfolding handle_open_fill
  metas-handle_open_fill m t v v' h = ground arith

  -- Applying a fill adds no order to those that are known, and forgets the one that was filled.
  apply_fill-forgets :
      (id : ℤ) (t : Trade) (v v' : Venue Con Bal Pos)
      → apply_fill contracts balances store id t v ≡ some v'
      → lookup id v'.metas ≡ none
  unfolding apply_fill
  apply_fill-forgets id t v v' h = elim (Option-cases (lookup id v.metas)) [
    | inl e ↦ ground (arith)
    | inr (m, e) ↦ elim (Bool-cases m.is_close) [
      | inl c ↦ ground (
        arith,
        lookup-erase_self {V = OrderMeta} id
            (handle_close_fill contracts balances store
              (spec_of (get_contract contracts m.symbol v.contracts)) m t v).metas,
      )
      | inr c ↦ elim (Option-cases (handle_open_fill contracts balances store m t v)) [
        | inl f ↦ absurd (ground arith)
        | inr (w, f) ↦ ground (arith, lookup-erase_self {V = OrderMeta} id w.metas)
      ]
    ]
  ]

  apply_fill-keeps :
      (id j : ℤ) (t : Trade) (v v' : Venue Con Bal Pos)
      → apply_fill contracts balances store id t v ≡ some v'
      → (v'.publishes ≡ v.publishes) × (lookup j v.metas ≡ none → lookup j v'.metas ≡ none)
  unfolding apply_fill
  apply_fill-keeps id j t v v' h = elim (Option-cases (lookup id v.metas)) [
    | inl e ↦ ground arith
    | inr (m, e) ↦ elim (Bool-cases m.is_close) [
      | inl c ↦
          let spec = spec_of (get_contract contracts m.symbol v.contracts) in
          ground
            (arith, metas-handle_close_fill spec m t v, lookup-erase {V = OrderMeta} j id v.metas)
      | inr c ↦ elim (Option-cases (handle_open_fill contracts balances store m t v)) [
        | inl f ↦ absurd (ground arith)
        | inr (w, f) ↦
            ground
              (arith, metas-handle_open_fill m t v w, lookup-erase {V = OrderMeta} j id v.metas)
      ]
    ]
  ]

  -- Once a fill of an order has been applied, no later fill of that order has any effect: not on the
  -- position, nor on a balance, nor on the orders that are known.
  pub apply_fill-once :
      (id : ℤ) (t u : Trade) (v v' : Venue Con Bal Pos)
      → apply_fill contracts balances store id t v ≡ some v'
      → apply_fill contracts balances store id u v' ≡ some v'
  unfolding apply_fill
  apply_fill-once id t u v v' h = rw (apply_fill-forgets id t v v' h, apply_fill) refl

  apply_fill_unknown :
      (id : ℤ) (t : Trade) (v : Venue Con Bal Pos)
      → lookup id v.metas ≡ none
      → apply_fill contracts balances store id t v ≡ some v
  unfolding apply_fill
  apply_fill_unknown id t v h = rw (h, apply_fill) refl

  publish_trade-keeps :
      (t : Trade) (o : Option OrderMeta) (v v' : Venue Con Bal Pos)
      → publish_trade contracts balances store t o v ≡ some v'
      → (v'.metas ≡ v.metas) × (v'.publishes ≡ v.publishes)
  unfolding publish_trade
  publish_trade-keeps t none v v' h = ground arith
  publish_trade-keeps t (some m) v v' h = ground arith

  -- A trade whose taker is not known ends the process where trades are published.
  unknown_taker :
      (u : Trade) (v : Venue Con Bal Pos)
      → v.publishes ≡ true
      → lookup u.taker_id v.metas ≡ none
      → handle_trade contracts balances store u v ≡ none
  unfolding handle_trade publish_trade
  unknown_taker u v p e =
      let first : apply_fill contracts balances store u.taker_id u v ≡ some v =
        apply_fill_unknown u.taker_id u v e in
      elim (Option-cases (apply_fill contracts balances store u.maker_id u v)) [
        | inl f ↦ ground (arith)
        | inr (w, f) ↦ ground (arith, apply_fill-keeps u.maker_id u.taker_id u v w f)
      ]

  forgets_taker :
      (t : Trade) (v v' : Venue Con Bal Pos)
      → handle_trade contracts balances store t v ≡ some v'
      → (v'.publishes ≡ v.publishes) × (lookup t.taker_id v'.metas ≡ none)
  unfolding handle_trade
  forgets_taker t v v' h =
      elim (Option-cases (apply_fill contracts balances store t.taker_id t v)) [
        | inl e ↦ absurd (ground arith)
        | inr (a, e) ↦ elim (Option-cases (apply_fill contracts balances store t.maker_id t a)) [
          | inl f ↦ absurd (ground arith)
          | inr (b, f) ↦ ground (
            arith,
            apply_fill-forgets t.taker_id t v a e,
            apply_fill-keeps t.taker_id t.taker_id t v a e,
            apply_fill-keeps t.maker_id t.taker_id t a b f,
            publish_trade-keeps t (lookup t.taker_id v.metas) b v',
          )
        ]
      ]

  -- Where trades are published, a second trade of a taker ends the process: after a trade that was
  -- handled, every trade with the same taker panics.
  pub handle_trade_twice :
      (t u : Trade) (v v' : Venue Con Bal Pos)
      → v.publishes ≡ true
      → handle_trade contracts balances store t v ≡ some v'
      → u.taker_id ≡ t.taker_id
      → handle_trade contracts balances store u v' ≡ none
  handle_trade_twice t u v v' p h same =
      let (kept, gone) = forgets_taker t v v' h in
      unknown_taker u v' (kept ∙ p) (ap (λ (i : ℤ). lookup i v'.metas) same ∙ gone)
