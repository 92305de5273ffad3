-- ===== src/Mtrade/Matcher/Deal.antt =====
-- One round of the loop of `matchAtLevel` on the whole state.
use mathlib.Core.List.{map-append}
use little_cex.Prelude.{
  ℕ, ◌-◌, ◌≤◌, ◌<◌, ◌≡◌, ◌≢◌, refl, ap, ap₂, ◌∙◌, sym, subst, ℤ, pos, [], ◌∷◌, ◌++◌, nat_beq,
  Bool-cases, inl, inr, ◌⊎◌, arith, map,
}
use little_cex.Mtrade.Order.{Order, OrderStatus, filled, partially_filled, Heap, update, is_filled}
use little_cex.Mtrade.Level.{RingPriceLevel, pop_front}
use little_cex.Mtrade.Matcher.{
  Matching, min64, fill, add_trade, retire_maker, close_maker, match_round,
}
use little_cex.Mtrade.Matcher.Fill.{
  IsFillable, left, remaining_qty-left, fill-IsFillable, left-fill, is_filled-left, min64-pos,
  update_self, update_ne,
}
use little_cex.Mtrade.Matcher.Round.{
  deal, deal_of, smaller, both_filled, RoundDone, id-fill, after_round, after_round-RoundDone,
}

-- A round on orders with `k` to fill: the level loses its front exactly when the maker has no
-- more than the taker wants.
pub record RoundOn (taker maker : ℕ) (level level' : RingPriceLevel) (st st' : Matching)
    : Type 0 where
  pub amount : ℕ
  pub amount_of : amount ≡ smaller (left (st.heap taker)) (left (st.heap maker))
  pub orders_done : RoundDone taker maker amount st.heap st'.heap
  pub traded : map deal st'.trades ≡ map deal st.trades ++ (deal_of st.heap (maker, amount) ∷ [])
  pub level_of :
      ((left (st.heap maker) ≤ left (st.heap taker))
        × ((h : Heap) × (level' ≡ (pop_front h level).1)))
      ⊎ ((left (st.heap taker) < left (st.heap maker)) × (level' ≡ level))

pub maker_filled :
    (taker maker k : ℕ) (h : Heap)
    → maker ≢ taker
    → both_filled taker maker k h maker ≡ fill (pos k) (h maker)
maker_filled taker maker k h ne =
    update_self maker (fill (pos k)) (update taker (fill (pos k)) h)
    ∙ ap (fill (pos k)) (update_ne taker maker (fill (pos k)) h ne)

module _ (taker maker : ℕ) (level : RingPriceLevel) (st : Matching)
    (v : (r : ℕ) → IsFillable (st.heap r)) (ne : maker ≢ taker) where
  abbrev pub amount_here : ℕ
  amount_here = smaller (left (st.heap taker)) (left (st.heap maker))

  -- The state with both sides filled and the trade added.
  abbrev pub dealt : Matching
  dealt =
      add_trade taker maker (pos amount_here)
        (record st { heap = both_filled taker maker amount_here st.heap })

  pub match_round-eq-close_maker : match_round taker maker level st ≡ close_maker maker level dealt
  unfolding match_round
  match_round-eq-close_maker =
      ap
        (λ (q : ℤ). close_maker maker level (
          add_trade taker maker q
            (record st { heap = update maker (fill q) (update taker (fill q) st.heap) })))
        (ap₂ min64 (remaining_qty-left (st.heap taker) (v taker))
            (remaining_qty-left (st.heap maker) (v maker))
          ∙ min64-pos (left (st.heap taker)) (left (st.heap maker)))

  trades-dealt :
      map deal dealt.trades ≡ map deal st.trades ++ (deal_of st.heap (maker, amount_here) ∷ [])
  unfolding add_trade
  trades-dealt =
      map-append deal st.trades _
      ∙ ap₂ (λ (i p : ℤ). map deal st.trades ++ ((i, p, pos amount_here) ∷ []))
          (ap (λ (o : Order). o.id) place ∙ (id-fill (pos amount_here) (st.heap maker)).0)
          (ap (λ (o : Order). o.price) place ∙ (id-fill (pos amount_here) (st.heap maker)).1)
    where
      place :
          both_filled taker maker amount_here st.heap maker ≡ fill (pos amount_here) (st.heap maker)
      place = maker_filled taker maker amount_here st.heap ne

  done_with :
      (s : OrderStatus)
      → RoundDone taker maker amount_here st.heap (after_round taker maker amount_here st.heap s ne)
  done_with s =
      after_round-RoundDone taker maker amount_here st.heap s ne v (ground arith) (ground arith)

  filled_maker : is_filled (dealt.heap maker) ≡ nat_beq (left (st.heap maker) - amount_here) 0
  unfolding add_trade
  filled_maker =
      ap is_filled (maker_filled taker maker amount_here st.heap ne)
      ∙ is_filled-left (fill (pos amount_here) (st.heap maker))
          (fill-IsFillable amount_here (st.heap maker) (v maker) (ground arith))
      ∙ ap (λ (n : ℕ). nat_beq n 0) (left-fill amount_here (st.heap maker) (v maker) (ground arith))

  close_maker-RoundOn :
      RoundOn taker maker level
        (close_maker maker level dealt).0
        st
        (close_maker maker level dealt).1
  unfolding close_maker retire_maker add_trade
  close_maker-RoundOn = elim (Bool-cases (is_filled (dealt.heap maker))) [
    | inl gone ↦ rw gone (record {
      amount = amount_here;
      amount_of = refl;
      orders_done = done_with filled;
      traded = trades-dealt;
      level_of = inl (
        ground (arith, filled_maker),
        (after_round taker maker amount_here st.heap filled ne, refl),
      );
    })
    | inr stays ↦ rw stays (record {
      amount = amount_here;
      amount_of = refl;
      orders_done = done_with partially_filled;
      traded = trades-dealt;
      level_of = inr (ground (arith, filled_maker), refl);
    })
  ]

pub match_round-RoundOn :
    (taker maker : ℕ) (level : RingPriceLevel) (st : Matching)
    → ((r : ℕ) → IsFillable (st.heap r))
    → maker ≢ taker
    → RoundOn taker maker level
        (match_round taker maker level st).0
        st
        (match_round taker maker level st).1
match_round-RoundOn taker maker level st v ne =
    subst (λ (r : RingPriceLevel × Matching). RoundOn taker maker level r.0 st r.1)
      (sym (match_round-eq-close_maker taker maker level st v ne))
      (close_maker-RoundOn taker maker level st v ne)
