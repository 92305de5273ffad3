-- ===== src/Mtrade/Matcher/Round.antt =====
-- One round of the loop of `matchAtLevel`: what it does to the orders, the trades and the level.
use little_cex.Prelude.{ℕ, ◌≤◌, ◌≡◌, ◌≢◌, refl, ap, ◌∙◌, sym, subst, ℤ, pos, if◌then◌else◌, ltb}
use native.Mathlib.Decide.{ℕ_discrete}
use little_cex.Mtrade.Order.{Order, OrderStatus, Heap, update}
use little_cex.Mtrade.Matcher.{Trade, fill, set_status}
use little_cex.Mtrade.Matcher.Fill.{IsFillable, left, fill-IsFillable, update_self, update_ne}

-- What a trade says of its maker.
abbrev pub deal : Trade → ℤ × ℤ × ℤ
deal t = (t.maker_id, t.price, t.qty)

-- The same for a fill of the order at a pointer.
abbrev pub deal_of : Heap → ℕ × ℕ → ℤ × ℤ × ℤ
deal_of h (p, k) = ((h p).id, (h p).price, pos k)

abbrev pub smaller : ℕ → ℕ → ℕ
smaller a b = if ltb a b then a else b

-- The orders after both sides are filled by `k`.
abbrev pub both_filled : ℕ → ℕ → ℕ → Heap → Heap
both_filled taker maker k h = update maker (fill (pos k)) (update taker (fill (pos k)) h)

pub record RoundDone (taker maker k : ℕ) (h h' : Heap) : Type 0 where
  pub at_taker : h' taker ≡ fill (pos k) (h taker)
  pub left_maker : left (h' maker) ≡ left (fill (pos k) (h maker))
  pub elsewhere : (r : ℕ) → r ≢ taker → r ≢ maker → h' r ≡ h r
  pub fillable : (r : ℕ) → IsFillable (h' r)
  pub ids : (r : ℕ) → (h' r).id ≡ (h r).id
  pub prices : (r : ℕ) → (h' r).price ≡ (h r).price

set_status-IsFillable : (s : OrderStatus) {o : Order} → IsFillable o → IsFillable (set_status s o)
set_status-IsFillable s v = record {
  filled_nonneg = v.filled_nonneg;
  filled_le = v.filled_le;
  qty_fits = v.qty_fits;
}

pub id-fill : (q : ℤ) (o : Order) → ((fill q o).id ≡ o.id) × ((fill q o).price ≡ o.price)
unfolding fill
id-fill q o = (refl, refl)

module _ (taker maker k : ℕ) (h : Heap) (s : OrderStatus) (ne : maker ≢ taker) where
  -- The orders at the end of a round that sets the maker's status.
  abbrev pub after_round : Heap
  after_round = update maker (set_status s) (both_filled taker maker k h)

  after_round-taker : after_round taker ≡ fill (pos k) (h taker)
  after_round-taker =
      update_ne maker taker (set_status s) (both_filled taker maker k h) (λ e. ne (sym e))
      ∙ update_ne maker taker (fill (pos k)) (update taker (fill (pos k)) h) (λ e. ne (sym e))
      ∙ update_self taker (fill (pos k)) h

  after_round-maker : after_round maker ≡ set_status s (fill (pos k) (h maker))
  after_round-maker =
      update_self maker (set_status s) (both_filled taker maker k h)
      ∙ ap (set_status s) (
          update_self maker (fill (pos k)) (update taker (fill (pos k)) h)
          ∙ ap (fill (pos k)) (update_ne taker maker (fill (pos k)) h ne))

  after_round-other : (r : ℕ) → r ≢ taker → r ≢ maker → after_round r ≡ h r
  after_round-other r nt nm =
      update_ne maker r (set_status s) (both_filled taker maker k h) nm
      ∙ update_ne maker r (fill (pos k)) (update taker (fill (pos k)) h) nm
      ∙ update_ne taker r (fill (pos k)) h nt

  -- What holds of the taker, of the maker and of every other order holds of all.
  after_round_all :
      (P : ℕ → Order → Type 0)
      → P taker (fill (pos k) (h taker))
      → P maker (set_status s (fill (pos k) (h maker)))
      → ((r : ℕ) → P r (h r))
      → (r : ℕ) → P r (after_round r)
  after_round_all P pt pm po r = elim (ℕ_discrete r taker) [
    | yes e ↦
        subst (λ (q : ℕ). P q (after_round q)) (sym e) (subst (P taker) (sym after_round-taker) pt)
    | no nt ↦ elim (ℕ_discrete r maker) [
      | yes e ↦
          subst (λ (q : ℕ). P q (after_round q)) (sym e)
            (subst (P maker) (sym after_round-maker) pm)
      | no nm ↦ subst (P r) (sym (after_round-other r nt nm)) (po r)
    ]
  ]

  pub after_round-RoundDone :
      ((r : ℕ) → IsFillable (h r))
      → k ≤ left (h taker)
      → k ≤ left (h maker)
      → RoundDone taker maker k h after_round
  after_round-RoundDone v ht hm = record {
    at_taker = after_round-taker;
    left_maker = ap left after_round-maker;
    elsewhere = after_round-other;
    fillable =
        after_round_all (λ (_ : ℕ) (o : Order). IsFillable o)
          (fill-IsFillable k (h taker) (v taker) ht)
          (set_status-IsFillable s (fill-IsFillable k (h maker) (v maker) hm)) v;
    ids =
        after_round_all (λ (r : ℕ) (o : Order). o.id ≡ (h r).id) (id-fill (pos k) (h taker)).0
          (id-fill (pos k) (h maker)).0 (λ r. refl);
    prices =
        after_round_all (λ (r : ℕ) (o : Order). o.price ≡ (h r).price) (id-fill (pos k) (h taker)).1
          (id-fill (pos k) (h maker)).1 (λ r. refl);
  }
