-- ===== src/Futures/Position/Average.antt =====
-- The entry price after adding to a position (updatePosition of pkg/futures/processor.go).
use little_cex.Prelude.{
  ℕ, suc, ◌+◌, ◌-◌, ◌*◌, ◌/◌, ◌^◌, ◌≤◌, ◌<◌, ◌≡◌, ◌∙◌, refl, ap, ap₂, ℤ, pos, negsuc, pos_part,
  neg_part, ◌+ℤ◌, ◌≤ℤ◌, true, false, some, eqb_ℤ, arith, add64, mul64, div64, int_eq, bytes_eq,
  nat_eq, mul64-pos, add64-pos, mul64-negsuc, div64-pos, add64-negsuc, div64-negsuc, add64-eq-+ℤ,
}
use little_cex.Futures.Position.{
  Position, average_price, same_direction, update_position, position_add, ℤ,
}

average-le : (a b p q high : ℕ) → 0 < a + b → p ≤ high → q ≤ high → (a * p + b * q) / (a + b) ≤ high
average-le a b p q high h k l = grind arith

le-average : (a b p q low : ℕ) → 0 < a + b → low ≤ p → low ≤ q → low ≤ (a * p + b * q) / (a + b)
le-average a b p q low h k l = grind arith

-- Sizes `a` and `b` and prices `p` and `q` from 1 to `high`, the products and their sum in range.
module _ (a b p q low high : ℕ) (ha : 0 < a) (hb : 0 < b) (hl : 0 < low) (pl : low ≤ p)
    (ph : p ≤ high) (ql : low ≤ q) (qh : q ≤ high) (f : (a + b) * high < 2 ^ 63) where
  sizes_fit : a + b < 2 ^ 63
  sizes_fit = grind arith

  first_fits : a * p < 2 ^ 63
  first_fits = grind arith

  second_fits : b * q < 2 ^ 63
  second_fits = grind arith

  sum_fits : a * p + b * q < 2 ^ 63
  sum_fits = grind arith

  first_pos : 0 < a * p
  first_pos = grind arith

  second_pos : 0 < b * q
  second_pos = grind arith

  long_average :
      div64 (add64 (mul64 (pos a) (pos p)) (mul64 (pos b) (pos q))) (add64 (pos a) (pos b))
      ≡ some (pos ((a * p + b * q) / (a + b)))
  long_average =
      rw
        (
          mul64-pos a p first_fits,
          mul64-pos b q second_fits,
          add64-pos (a * p) (b * q) sum_fits,
          add64-pos a b sizes_fit,
        )
        (div64-pos (a * p + b * q) (a + b) (omega arith))

  blended_bounds : (low ≤ (a * p + b * q) / (a + b)) × ((a * p + b * q) / (a + b) ≤ high)
  blended_bounds =
      (le-average a b p q low (omega arith) pl ql, average-le a b p q high (omega arith) ph qh)

short_sum :
    (m k : ℕ)
    → 0 < m
    → 0 < k
    → m + k < 2 ^ 63
    → add64 (negsuc (m - 1)) (negsuc (k - 1)) ≡ negsuc (m + k - 1)
short_sum m k hm hk f = add64-negsuc (m - 1) (k - 1) (omega arith) ∙ ap negsuc (omega arith)

short_quotient :
    (m a b : ℕ)
    → 0 < m
    → m < 2 ^ 63
    → div64 (negsuc (m - 1)) (negsuc (a + b + 1)) ≡ some (pos (m / (suc a + suc b)))
short_quotient m a b hm f =
    div64-negsuc (m - 1) (a + b + 1) (omega arith)
    ∙ ap₂ (λ (x y : ℕ). some (pos (x / y))) (omega arith) (omega arith)

-- The same for two short positions, of sizes `a + 1` and `b + 1`.
short_average :
    (a b p q : ℕ)
    → 0 < suc a * p
    → 0 < suc b * q
    → suc a * p + suc b * q < 2 ^ 63
    → suc a + suc b < 2 ^ 63
    → 0 < p
    → 0 < q
    → div64
        (add64 (mul64 (negsuc a) (pos p)) (mul64 (negsuc b) (pos q)))
        (add64 (negsuc a) (negsuc b))
      ≡ some (pos ((suc a * p + suc b * q) / (suc a + suc b)))
short_average a b p q fa fb fs fn hp hq =
    rw
      (
        mul64-negsuc a p (omega arith) hp,
        mul64-negsuc b q (omega arith) hq,
        short_sum (suc a * p) (suc b * q) fa fb fs,
        add64-negsuc a b (omega arith),
      )
      (short_quotient (suc a * p + suc b * q) a b (omega arith) fs)

abbrev magnitude : ℤ → ℕ
magnitude z = pos_part z + neg_part z

-- What adding `delta` at `price` makes of a position, where `low` and `high` bound both prices.
pub record IsBlended (p : Position) (delta added low high : ℤ) (r : Position) : Type 0 where
  pub size : r.size ≡ p.size +ℤ delta
  pub above : low ≤ℤ r.entry_price
  pub below : r.entry_price ≤ℤ high
  pub margin : r.margin ≡ add64 p.margin added
  pub leverage : r.leverage ≡ p.leverage
  pub realized_pnl : r.realized_pnl ≡ p.realized_pnl

-- The average as a number between the bounds.
blend :
    (s d e q : ℤ) (low high : ℕ)
    → same_direction s d ≡ true
    → 0 < low
    → pos low ≤ℤ e
    → e ≤ℤ pos high
    → pos low ≤ℤ q
    → q ≤ℤ pos high
    → (magnitude s + magnitude d) * high < 2 ^ 63
    → (m : ℕ) × (div64 (add64 (mul64 s e) (mul64 d q)) (add64 s d) ≡ some (pos m))
      × (low ≤ m)
      × (m ≤ high)
blend (pos a) (pos b) (pos p) (pos q) low high t hl pl ph ql qh f =
    let ha : 0 < a = ground arith in
    let hb : 0 < b = ground arith in
    let fits : (a + b) * high < 2 ^ 63 = grind arith in
    let bounds : (low ≤ (a * p + b * q) / (a + b)) × ((a * p + b * q) / (a + b) ≤ high) =
      blended_bounds a b p q low high ha hb hl (omega arith) (omega arith) (omega arith)
        (omega arith) fits in
    (
      (a * p + b * q) / (a + b),
      long_average a b p q low high ha hb hl (omega arith) (omega arith) (omega arith) (omega arith)
          fits,
      bounds.0,
      bounds.1,
    )
blend (negsuc a) (negsuc b) (pos p) (pos q) low high t hl pl ph ql qh f =
    let fits : (suc a + suc b) * high < 2 ^ 63 = grind arith in
    let bounds : (low ≤ (suc a * p + suc b * q) / (suc a + suc b))
        × ((suc a * p + suc b * q) / (suc a + suc b) ≤ high) =
      blended_bounds (suc a) (suc b) p q low high (omega arith) (omega arith) hl (omega arith)
        (omega arith) (omega arith) (omega arith) fits in
    (
      (suc a * p + suc b * q) / (suc a + suc b),
      short_average a b p q (grind arith) (grind arith) (grind arith) (grind arith) (omega arith)
          (omega arith),
      bounds.0,
      bounds.1,
    )
blend (pos a) (negsuc b) e q low high t hl pl ph ql qh f = absurd (ground arith)
blend (negsuc a) (pos b) e q low high t hl pl ph ql qh f = absurd (ground arith)
blend s d (negsuc e) q low high t hl pl ph ql qh f = absurd (omega arith)
blend s d e (negsuc q) low high t hl pl ph ql qh f = absurd (omega arith)

narrow : (n high : ℕ) → 0 < high → n * high < 2 ^ 63 → n < 2 ^ 63
narrow n high h f = grind arith

-- Adding to a position, long or short, at positive prices, where the sum of the sizes times any price
-- up to `high` stays below 2^63: it takes the branch of adding, does not panic, adds the sizes and the
-- margins, and leaves an entry price within every range that holds the old entry price and the price
-- of the fill.
pub update_position-IsBlended :
    (p : Position) (delta price added leverage : ℤ) (low high : ℕ)
    → same_direction p.size delta ≡ true
    → 0 < low
    → pos low ≤ℤ p.entry_price
    → p.entry_price ≤ℤ pos high
    → pos low ≤ℤ price
    → price ≤ℤ pos high
    → (magnitude p.size + magnitude delta) * high < 2 ^ 63
    → (r : Position) × (update_position p delta price added leverage false ≡ some (r, position_add))
      × IsBlended p delta added (pos low) (pos high) r
unfolding update_position average_price
update_position-IsBlended p delta price added leverage low high t hl pl ph ql qh f =
    let (m, e, above, below) = blend p.size delta p.entry_price price low high t hl pl ph ql qh f in
    let total : magnitude p.size + magnitude delta < 2 ^ 63 =
      narrow (magnitude p.size + magnitude delta) high (omega arith) f in
    let open_size : eqb_ℤ p.size (pos 0) ≡ false = ground arith in
    (
      record p { size = add64 p.size delta; entry_price = pos m; margin = add64 p.margin added },
      rw (open_size, t, e) refl,
      record {
        size = add64-eq-+ℤ p.size delta (omega arith) (omega arith);
        above = omega (arith, above);
        below = omega (arith, below);
        margin = refl;
        leverage = refl;
        realized_pnl = refl;
      },
    )
