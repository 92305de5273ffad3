-- ===== src/Mtrade/Matcher/Serve.antt =====
-- The rounds of `matchAtLevel` as service of the queue of its level.
use mathlib.Core.Path.{fun_ext}
use mathlib.Core.List.{append_assoc, append-nil}
use native.Mathlib.Decide.{ℕ_discrete}
use little_cex.Prelude.{
  ℕ, ◌+◌, ◌-◌, ◌≤◌, ◌<◌, ◌≡◌, ◌≢◌, refl, ap, ap₂, ◌∙◌, sym, subst, ℤ, pos, some, List, [], ◌∷◌,
  ◌++◌, if◌then◌else◌, nat_beq, nat_beq_iff, nat_beq-false, arith, map,
}
use little_cex.Mtrade.Order.{Heap}
use little_cex.Mtrade.Level.{RingPriceLevel}
use little_cex.Mtrade.Level.Ring.{IsRing, contents}
use little_cex.Mtrade.Matcher.{Matching}
use little_cex.Mtrade.Matcher.Fill.{IsFillable, left, left-fill}
use little_cex.Mtrade.Matcher.Queue.{
  All, Distinct, serve, taken, given, serve-cong, serve_whole, serve_part,
}
use little_cex.Mtrade.Matcher.Round.{deal, deal_of, RoundDone}
use little_cex.Mtrade.Matcher.Deal.{RoundOn}

-- The room that the orders have in a heap.
abbrev pub room : Heap → ℕ → ℕ
room h p = left (h p)

-- What the loop does to the queue `ps` of its level.
pub record IsServed (taker : ℕ) (ps : List ℕ) (level' : RingPriceLevel) (st st' : Matching)
    : Type 0 where
  pub ring : IsRing level'
  pub queue : contents level' ≡ map some (serve (room st.heap taker) (room st.heap) ps).1
  pub traded :
      map deal st'.trades
      ≡ map deal st.trades ++ map (deal_of st.heap) (serve (room st.heap taker) (room st.heap) ps).0
  pub taker_left :
      room st'.heap taker + taken (serve (room st.heap taker) (room st.heap) ps).0
      ≡ room st.heap taker
  pub makers_left :
      (r : ℕ)
      → r ≢ taker
      → room st'.heap r + given r (serve (room st.heap taker) (room st.heap) ps).0 ≡ room st.heap r
  pub fillable : (r : ℕ) → IsFillable (st'.heap r)

-- A loop that does nothing.
pub nothing-IsServed :
    (taker : ℕ) (ps : List ℕ) (level : RingPriceLevel) (st : Matching)
    → IsRing level
    → contents level ≡ map some ps
    → ((r : ℕ) → IsFillable (st.heap r))
    → serve (room st.heap taker) (room st.heap) ps ≡ ([], ps)
    → IsServed taker ps level st st
nothing-IsServed taker ps level st v q f e = record {
  ring = v;
  queue = q ∙ sym (ap (λ (s : List (ℕ × ℕ) × List ℕ). map some s.1) e);
  traded = sym (
      ap (λ (s : List (ℕ × ℕ) × List ℕ). map deal st.trades ++ map (deal_of st.heap) s.0) e
      ∙ append-nil (map deal st.trades));
  taker_left = omega (arith, ap (λ (s : List (ℕ × ℕ) × List ℕ). taken s.0) e);
  makers_left = λ r _. omega (arith, ap (λ (s : List (ℕ × ℕ) × List ℕ). given r s.0) e);
  fillable = f;
}

-- The room of the others after a round.
pub room_after :
    {taker p k r : ℕ} {h h' : Heap}
    → RoundDone taker p k h h'
    → ((r : ℕ) → IsFillable (h r))
    → k ≤ room h p
    → r ≢ taker
    → room h' r + (if nat_beq r p then k else 0) ≡ room h r
room_after {taker} {p} {k} {r} {h} {h'} d f small nt = elim (ℕ_discrete r p) [
  | yes e ↦
      subst (λ (q : ℕ). room h' q + (if nat_beq q p then k else 0) ≡ room h q) (sym e)
        (ground (arith, d.left_maker, left-fill k (h p) (f p) small, (nat_beq_iff p p).1 refl))
  | no ne ↦ ground (arith, ap left (d.elsewhere r nt ne), nat_beq-false r p ne)
]

-- The abstract result of a queue whose first order is filled whole.
abbrev Served : Type 0
Served = List (ℕ × ℕ) × List ℕ

-- A round that fills its maker, before the rest of the loop.
module _ {taker p : ℕ} {level level₁ : RingPriceLevel} {st st₁ : Matching}
    (ro : RoundOn taker p level level₁ st st₁) (f : (r : ℕ) → IsFillable (st.heap r))
    (wants : 0 < room st.heap taker) where
  deals : deal_of st₁.heap ≡ deal_of st.heap
  deals = fun_ext (λ (x : ℕ × ℕ).
      ap₂ (λ (i c : ℤ). (i, c, pos x.1)) (ro.orders_done.ids x.0) (ro.orders_done.prices x.0))

  taker_now : room st₁.heap taker ≡ room st.heap taker - ro.amount
  taker_now =
      ap left ro.orders_done.at_taker
      ∙ left-fill ro.amount (st.heap taker) (f taker) (ground (arith, ro.amount_of))

  makers_now :
      (r : ℕ)
      → r ≢ taker
      → room st₁.heap r + (if nat_beq r p then ro.amount else 0) ≡ room st.heap r
  makers_now r nt = room_after ro.orders_done f (ground (arith, ro.amount_of)) nt

  -- The orders behind keep what they have left.
  others_kept :
      (qs : List ℕ)
      → All (λ (q : ℕ). taker ≢ q) qs
      → All (λ (q : ℕ). p ≢ q) qs
      → All (λ (q : ℕ). room st₁.heap q ≡ room st.heap q) qs
  others_kept [] _ _ = tt
  others_kept (q ∷ qs) t u = (
    ap left (ro.orders_done.elsewhere q (λ e. t.0 (sym e)) (λ e. u.0 (sym e))),
    others_kept qs t.1 u.1,
  )

  amount_whole : room st.heap p ≤ room st.heap taker → ro.amount ≡ room st.heap p
  amount_whole fits = ground (arith, ro.amount_of)

  module _ (ps : List ℕ) (fits : room st.heap p ≤ room st.heap taker)
      (d : Distinct (taker ∷ p ∷ ps)) where
    -- What is to come after the first order.
    abbrev then_served : Served
    then_served = serve (room st.heap taker - room st.heap p) (room st.heap) ps

    whole :
        serve (room st.heap taker) (room st.heap) (p ∷ ps)
        ≡ ((p, room st.heap p) ∷ then_served.0, then_served.1)
    whole = serve_whole (room st.heap taker) (room st.heap) p ps wants fits

    same : serve (room st₁.heap taker) (room st₁.heap) ps ≡ then_served
    same =
        ap (λ (w : ℕ). serve w (room st₁.heap) ps)
          (taker_now ∙ ap (λ (a : ℕ). room st.heap taker - a) (amount_whole fits))
        ∙ serve-cong (room st.heap taker - room st.heap p) (room st₁.heap) (room st.heap) ps
            (others_kept ps d.0.1 d.1.0)

    pub maker-IsServed :
        {level' : RingPriceLevel} {st' : Matching}
        → IsServed taker ps level' st₁ st'
        → IsServed taker (p ∷ ps) level' st st'
    maker-IsServed {level'} {st'} i = record {
      ring = i.ring;
      queue =
          i.queue
          ∙ ap (λ (s : Served). map some s.1) same
          ∙ sym (ap (λ (s : Served). map some s.1) whole);
      traded =
          i.traded
          ∙ ap₂ (λ (ts : List (ℤ × ℤ × ℤ)) (fs : List (ℤ × ℤ × ℤ)). ts ++ fs)
              (ro.traded
                ∙ ap (λ (a : ℕ). map deal st.trades ++ (deal_of st.heap (p, a) ∷ []))
                    (amount_whole fits))
              (ap₂ (λ (g : ℕ × ℕ → ℤ × ℤ × ℤ) (s : Served). map g s.0) deals same)
          ∙ append_assoc (map deal st.trades) (deal_of st.heap (p, room st.heap p) ∷ []) _
          ∙ sym (ap (λ (s : Served). map deal st.trades ++ map (deal_of st.heap) s.0) whole);
      taker_left = omega (
        arith,
        i.taker_left,
        taker_now,
        (amount_whole fits),
        ap (λ (s : Served). taken s.0) same,
        ap (λ (s : Served). taken s.0) whole,
      );
      makers_left = λ r nt. ground (
        arith,
        i.makers_left r nt,
        makers_now r nt,
        (amount_whole fits),
        ap (λ (s : Served). given r s.0) same,
        ap (λ (s : Served). given r s.0) whole,
      );
      fillable = i.fillable;
    }

  -- A round that the maker outlasts is the last.
  pub taker-IsServed :
      (ps : List ℕ)
      → IsRing level
      → contents level ≡ map some (p ∷ ps)
      → room st.heap taker < room st.heap p
      → (room st₁.heap taker ≡ 0) × IsServed taker (p ∷ ps) level st st₁
  taker-IsServed ps v q short = (
    omega (arith, taker_now, amount_all),
    record {
      ring = v;
      queue = q ∙ sym (ap (λ (s : Served). map some s.1) part);
      traded =
          ro.traded
          ∙ ap (λ (a : ℕ). map deal st.trades ++ (deal_of st.heap (p, a) ∷ [])) amount_all
          ∙ sym (ap (λ (s : Served). map deal st.trades ++ map (deal_of st.heap) s.0) part);
      taker_left = omega (arith, taker_now, amount_all, ap (λ (s : Served). taken s.0) part);
      makers_left = λ r nt.
          ground (arith, makers_now r nt, amount_all, ap (λ (s : Served). given r s.0) part);
      fillable = ro.orders_done.fillable;
    },
  )
    where
      amount_all : ro.amount ≡ room st.heap taker
      amount_all = ground (arith, ro.amount_of)

      part :
          serve (room st.heap taker) (room st.heap) (p ∷ ps)
          ≡ ((p, room st.heap taker) ∷ [], p ∷ ps)
      part = serve_part (room st.heap taker) (room st.heap) p ps wants short
