-- ===== src/Mtrade/Matcher/Depth.antt =====
-- The total of a level, which the snapshots of the book publish, over a round of matching.
use little_cex.Prelude.{
  ℕ, ◌≡◌, ◌≢◌, refl, ap, ◌∙◌, sym, subst, ℤ, pos, true, false, Option, none, some, nat_beq,
  Bool-cases, inl, inr, sub64, sub64-eq--ℤ, -ℤ_parts, eq_of_parts, IsI64, arith,
}
use little_cex.Mtrade.Order.{filled, Heap, update, remaining_qty, is_filled}
use little_cex.Mtrade.Level.{RingPriceLevel, front, pop_front, remaining_at, slot_at}
use little_cex.Mtrade.Matcher.{
  Matching, set_status, close_maker, retire_maker, add_trade, match_round,
}
use little_cex.Mtrade.Matcher.Fill.{
  fill-IsFillable, IsFillable, remaining_qty-left, update_self, is_filled-left,
}
use little_cex.Mtrade.Matcher.Deal.{dealt, match_round-eq-close_maker, amount_here, maker_filled}

sub64_nothing : (z : ℤ) → IsI64 z → sub64 z (pos 0) ≡ z
sub64_nothing z h = grind (arith, eq_of_parts, sub64-eq--ℤ z (pos 0), -ℤ_parts z (pos 0))

front_full :
    (level : RingPriceLevel)
    → nat_beq level.count 0 ≡ false
    → front level ≡ slot_at level.orders level.head
unfolding front
front_full level full = rw full refl

front_empty : (level : RingPriceLevel) → nat_beq level.count 0 ≡ true → front level ≡ none
unfolding front
front_empty level empty = rw empty refl

none-ne-some : {p : ℕ} → none ≢ some p
none-ne-some e = cc

total_qty-pop_front :
    (h : Heap) (level : RingPriceLevel) (p : ℕ)
    → front level ≡ some p
    → (pop_front h level).1.total_qty ≡ sub64 level.total_qty (remaining_qty (h p))
unfolding pop_front
total_qty-pop_front h level p e = elim (Bool-cases (nat_beq level.count 0)) [
  | inl empty ↦ absurd (none-ne-some (sym (front_empty level empty) ∙ e))
  | inr full ↦ rw full (
      ap (λ (o : Option ℕ). sub64 level.total_qty (remaining_at h o))
        (sym (front_full level full) ∙ e))
]

module _ (taker maker : ℕ) (level : RingPriceLevel) (st : Matching)
    (v : (r : ℕ) → IsFillable (st.heap r)) (ne : maker ≢ taker) where
  abbrev after_deal : Matching
  after_deal = dealt taker maker level st v ne

  dealt_maker-IsFillable : IsFillable (after_deal.heap maker)
  unfolding add_trade
  dealt_maker-IsFillable =
      subst IsFillable
        (sym (maker_filled taker maker (amount_here taker maker level st v ne) st.heap ne))
        (fill-IsFillable (amount_here taker maker level st v ne) (st.heap maker) (v maker)
          (ground arith))

  nothing_left :
      is_filled (after_deal.heap maker) ≡ true
      → remaining_qty (update maker (set_status filled) after_deal.heap maker) ≡ pos 0
  nothing_left gone =
      ap remaining_qty (update_self maker (set_status filled) after_deal.heap)
      ∙ remaining_qty-left (after_deal.heap maker) dealt_maker-IsFillable
      ∙ ap pos (ground (arith, is_filled-left (after_deal.heap maker) dealt_maker-IsFillable))

  total_qty-close_maker :
      front level ≡ some maker
      → IsI64 level.total_qty
      → (close_maker maker level after_deal).0.total_qty ≡ level.total_qty
  unfolding close_maker retire_maker
  total_qty-close_maker e fits = elim (Bool-cases (is_filled (after_deal.heap maker))) [
    | inl gone ↦ rw gone (
        total_qty-pop_front (update maker (set_status filled) after_deal.heap) level maker e
        ∙ ap (sub64 level.total_qty) (nothing_left gone)
        ∙ sub64_nothing level.total_qty fits)
    | inr stays ↦ rw stays refl
  ]

-- A round of matching leaves the total of the level as it was, whether the maker leaves the level
-- or not: where every order of the heap is filled by no less than 0, no more than its quantity and
-- less than 2^63, the maker is at the front and is not the taker, and the total is an `int64`.
pub match_round-total_qty :
    (taker maker : ℕ) (level : RingPriceLevel) (st : Matching)
    → ((r : ℕ) → IsFillable (st.heap r))
    → maker ≢ taker
    → front level ≡ some maker
    → IsI64 level.total_qty
    → (match_round taker maker level st).0.total_qty ≡ level.total_qty
match_round-total_qty taker maker level st v ne e fits =
    ap (λ (r : RingPriceLevel × Matching). r.0.total_qty)
      (match_round-eq-close_maker taker maker level st v ne)
    ∙ total_qty-close_maker taker maker level st v ne e fits
