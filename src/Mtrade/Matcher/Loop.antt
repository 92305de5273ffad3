-- ===== src/Mtrade/Matcher/Loop.antt =====
-- The loop of `matchAtLevel` serves the queue of its level.
use native.Mathlib.Decide.{ℕ_discrete}
use little_cex.Prelude.{
  ℕ, zero, suc, ◌-◌, ◌<◌, ◌≡◌, refl, ap, ap₂, ◌∙◌, sym, subst, pos, true, false, some, List, [],
  ◌∷◌, ltb, ltb_ℤ, inl, inr, arith, map, length,
}
use little_cex.Mtrade.Order.{Order, remaining_qty}
use little_cex.Mtrade.Level.{RingPriceLevel, front, is_empty}
use little_cex.Mtrade.Level.Ring.{IsRing, contents}
use little_cex.Mtrade.Level.Front.{is_empty-contents, front-contents}
use little_cex.Mtrade.Level.Remove.{suc_pred}
use little_cex.Mtrade.Matcher.{
  Matching, match_round, Matched, matched, panicked, out_of_fuel, match_at_level,
}
use little_cex.Mtrade.Matcher.Fill.{IsFillable, left, remaining_qty-left}
use little_cex.Mtrade.Matcher.Queue.{serve_none, Distinct, serve, serve_nothing}
use little_cex.Mtrade.Matcher.Deal.{RoundOn, match_round-RoundOn}
use little_cex.Mtrade.Matcher.Serve.{
  room, IsServed, nothing-IsServed, maker-IsServed, taker-IsServed,
}

-- The loop has ended, without a panic, and has served the queue.
abbrev pub EndsServed : ℕ → List ℕ → Matching → Matched (RingPriceLevel × Matching) → Type 0
EndsServed taker ps st (matched (level', st')) = IsServed taker ps level' st st'
EndsServed taker ps st panicked = ⊥
EndsServed taker ps st out_of_fuel = ⊥

-- The test of the loop, in terms of what the taker has left.
wants_more : (o : Order) → IsFillable o → ltb_ℤ (pos 0) (remaining_qty o) ≡ ltb 0 (left o)
wants_more o v = ap (ltb_ℤ (pos 0)) (remaining_qty-left o v) ∙ ground arith

match_at_level_sated :
    (fuel taker : ℕ) (level : RingPriceLevel) (st : Matching)
    → IsFillable (st.heap taker)
    → left (st.heap taker) ≡ 0
    → match_at_level (suc fuel) taker level st ≡ matched (level, st)
unfolding match_at_level
match_at_level_sated fuel taker level st f e = rw (wants_more (st.heap taker) f ∙ ap (ltb 0) e) refl

match_at_level_empty :
    (fuel taker : ℕ) (level : RingPriceLevel) (st : Matching)
    → is_empty level ≡ true
    → match_at_level (suc fuel) taker level st ≡ matched (level, st)
unfolding match_at_level
match_at_level_empty fuel taker level st e = rw e (ground arith)

match_at_level_round :
    (fuel taker p : ℕ) (level : RingPriceLevel) (st : Matching)
    → IsFillable (st.heap taker)
    → 0 < left (st.heap taker)
    → is_empty level ≡ false
    → front level ≡ some p
    → let (level', st') = match_round taker p level st in
      match_at_level (suc fuel) taker level st ≡ match_at_level fuel taker level' st'
unfolding match_at_level
match_at_level_round fuel taker p level st f more full e =
    rw (wants_more (st.heap taker) f, full, e) (ground arith)

match_at_level_run :
    (ps : List ℕ) (fuel taker : ℕ) (level : RingPriceLevel) (st : Matching)
    → IsRing level
    → contents level ≡ map some ps
    → length ps < fuel
    → Distinct (taker ∷ ps)
    → ((r : ℕ) → IsFillable (st.heap r))
    → (level' : RingPriceLevel) × (st' : Matching) × (match_at_level fuel taker level st
        ≡ matched (level', st'))
      × IsServed taker ps level' st st'
match_at_level_run ps zero taker level st v q enough d f = absurd (omega arith)
match_at_level_run [] (suc fuel) taker level st v q enough d f = (
  level,
  st,
  match_at_level_empty fuel taker level st (is_empty-contents level q),
  nothing-IsServed taker [] level st v q f (serve_none (room st.heap taker) (room st.heap)),
)
match_at_level_run (p ∷ ps) (suc fuel) taker level st v q enough d f =
    elim (ℕ_discrete (left (st.heap taker)) 0) [
      | yes e ↦ (
        level,
        st,
        match_at_level_sated fuel taker level st (f taker) e,
        nothing-IsServed taker (p ∷ ps) level st v q f (
            ap (λ (w : ℕ). serve w (room st.heap) (p ∷ ps)) e
            ∙ serve_nothing (room st.heap) (p ∷ ps)),
      )
      | no ne ↦ elim first_round.level_of [
        | inl (fits, (h, e)) ↦
            let popped = front-contents h level (some p) (map some ps) v q in
            let (level', st', run, done) =
              match_at_level_run ps fuel taker _ round.1 (subst IsRing (sym e) popped.2)
                (ap contents e ∙ popped.3) (omega arith) (d.0.1, d.1.1)
                first_round.orders_done.fillable in
            (
              level',
              st',
              go_on (omega arith) ∙ run,
              maker-IsServed first_round f (omega arith) ps fits d done,
            )
        | inr (short, e) ↦
            let (sated, done) = taker-IsServed first_round f (omega arith) ps v q short in
            (level, round.1, go_on (omega arith) ∙ stop sated e, done)
      ]
    ]
  where
    round : RingPriceLevel × Matching
    round = match_round taker p level st

    first_round : RoundOn taker p level round.0 st round.1
    first_round = match_round-RoundOn taker p level st f (λ e. d.0.0 (sym e))

    go_on :
        0 < left (st.heap taker)
        → match_at_level (suc fuel) taker level st ≡ match_at_level fuel taker round.0 round.1
    go_on more =
        let ahead = front-contents st.heap level (some p) (map some ps) v q in
        match_at_level_round fuel taker p level st (f taker) more ahead.0 ahead.1

    stop :
        left (round.1.heap taker) ≡ 0
        → round.0 ≡ level
        → match_at_level fuel taker round.0 round.1 ≡ matched (level, round.1)
    stop sated e =
        ap₂ (λ (n : ℕ) (l : RingPriceLevel). match_at_level n taker l round.1)
          (suc_pred fuel (omega arith)) e
        ∙ match_at_level_sated (fuel - 1) taker level round.1
            (first_round.orders_done.fillable taker) sated

-- On a ring whose orders are distinct, none of them the taker, with fuel for one more round than
-- it holds orders, and every order of the heap filled by no less than 0, no more than its quantity
-- and less than 2^63, the loop ends without a panic and serves the queue from its front. The
-- trades are with the makers served, in their order, at their prices; the level holds the rest of
-- the queue; what the taker and each maker have left falls by what they traded.
pub match_at_level-EndsServed :
    (ps : List ℕ) (fuel taker : ℕ) (level : RingPriceLevel) (st : Matching)
    → IsRing level
    → contents level ≡ map some ps
    → length ps < fuel
    → Distinct (taker ∷ ps)
    → ((r : ℕ) → IsFillable (st.heap r))
    → EndsServed taker ps st (match_at_level fuel taker level st)
match_at_level-EndsServed ps fuel taker level st v q enough d f =
    let (level', st', run, done) = match_at_level_run ps fuel taker level st v q enough d f in
    subst (EndsServed taker ps st) (sym run) done
