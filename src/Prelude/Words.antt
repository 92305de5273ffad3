-- ===== src/Prelude/Words.antt =====
-- Laws of Go's int64 products and quotients, within the range.
use Prim.Native.Nat.{ℕ, zero, suc, ◌+◌, ◌-◌, ◌*◌, ◌/◌, ◌≤◌, ◌<◌, ◌^◌}
use mathlib.Core.Path.{◌≡◌, refl}
use mathlib.Core.Option.{some}
use native.Mathlib.Omega.{arith}
use little_cex.Prelude.Int.{pos, negsuc, sub_ℕ, ◌+ℤ◌, ◌-ℤ◌, ◌*ℤ◌}
use little_cex.Prelude.Int64.{add64, mul64, div64, quotient, wrap64}

pub mul64-pos : (a p : ℕ) → a * p < 2 ^ 63 → mul64 (pos a) (pos p) ≡ pos (a * p)
unfolding mul64 ◌*ℤ◌ wrap64
mul64-pos a p h = grind arith

pub mul64-negsuc :
    (a p : ℕ) → suc a * p < 2 ^ 63 → 0 < p → mul64 (negsuc a) (pos p) ≡ negsuc (suc a * p - 1)
unfolding mul64 ◌*ℤ◌ wrap64
mul64-negsuc a p h k = grind arith

pub add64-pos : (a b : ℕ) → a + b < 2 ^ 63 → add64 (pos a) (pos b) ≡ pos (a + b)
unfolding add64 ◌+ℤ◌ wrap64
add64-pos a b h = ground arith

pub add64-negsuc : (a b : ℕ) → a + b + 2 < 2 ^ 63 → add64 (negsuc a) (negsuc b) ≡ negsuc (a + b + 1)
unfolding add64 ◌+ℤ◌ wrap64
add64-negsuc a b h = ground arith

div_small : (m d : ℕ) → m < d → m / d ≡ 0
div_small m d h = grind arith

div_large : (m d : ℕ) → 0 < d → d ≤ m → 0 < m / d
div_large m d h k = grind arith

pub quotient-negsuc : (n d : ℕ) → 0 < d → quotient (negsuc n) d ≡ sub_ℕ 0 (suc n / d)
unfolding quotient
quotient-negsuc n d h = ground (arith, div_small (n + 1) d, div_large (n + 1) d)

pub div64-pos : (n d : ℕ) → 0 < d → div64 (pos n) (pos d) ≡ some (pos (n / d))
unfolding div64 quotient
div64-pos n zero h = absurd (omega arith)
div64-pos n (suc d) h = refl

negated : (m : ℕ) → m < 2 ^ 63 → wrap64 (pos 0 -ℤ sub_ℕ 0 m) ≡ pos m
unfolding wrap64 ◌-ℤ◌
negated m h = ground arith

pub div64-negsuc :
    (n d : ℕ) → suc n < 2 ^ 63 → div64 (negsuc n) (negsuc d) ≡ some (pos (suc n / suc d))
unfolding div64
div64-negsuc n d h =
    rw (quotient-negsuc n (suc d) (omega arith)) (rw (negated (suc n / suc d) (grind arith)) refl)
