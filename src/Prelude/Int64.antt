-- ===== src/Prelude/Int64.antt =====
-- Go's int64: arithmetic wraps around modulo 2^64.
use Prim.Native.Nat.{ℕ, zero, suc, ◌+◌, ◌-◌, ◌/◌, ◌≤◌, ◌<◌, ◌%◌, ◌^◌}
use mathlib.Core.Option.{Option, none, some}
use mathlib.Core.Path.{◌≡◌}
use native.Mathlib.Omega.{arith}
use little_cex.Prelude.Tests.{ltb, if◌then◌else◌}
use little_cex.Prelude.Int.{ℤ, pos, negsuc, pos_part, neg_part, ◌+ℤ◌, ◌-ℤ◌, ◌*ℤ◌, int_laws}

-- The bit pattern of an integer at 64 bits.
abbrev pub bits64 : ℤ → ℕ
bits64 (pos n) = n % 2 ^ 64
bits64 (negsuc n) = 2 ^ 64 - 1 - n % 2 ^ 64

-- The signed reading of a bit pattern.
abbrev pub of_bits64 : ℕ → ℤ
of_bits64 m = if ltb m (2 ^ 63) then pos m else negsuc (2 ^ 64 - 1 - m)

unfoldable pub wrap64 : ℤ → ℤ
wrap64 z = of_bits64 (bits64 z)

unfoldable pub add64 : ℤ → ℤ → ℤ
add64 a b = wrap64 (a +ℤ b)

unfoldable pub sub64 : ℤ → ℤ → ℤ
sub64 a b = wrap64 (a -ℤ b)

unfoldable pub mul64 : ℤ → ℤ → ℤ
mul64 a b = wrap64 (a *ℤ b)

-- The same at 32 bits.
unfoldable pub wrap32 : ℤ → ℤ
wrap32 (pos n) = let m : ℕ = n % 2 ^ 32 in if ltb m (2 ^ 31) then pos m else negsuc (2 ^ 32 - 1 - m)
wrap32 (negsuc n) =
    let m : ℕ = n % 2 ^ 32 in if ltb m (2 ^ 31) then negsuc m else pos (2 ^ 32 - 1 - m)

unfoldable pub add32 : ℤ → ℤ → ℤ
unfolding ◌+ℤ◌
add32 a b = wrap32 (a +ℤ b)

unfoldable pub sub32 : ℤ → ℤ → ℤ
unfolding ◌-ℤ◌
sub32 a b = wrap32 (a -ℤ b)

-- -2^63 ≤ z < 2^63.
abbrev pub IsI64 : ℤ → Type 0
IsI64 z = (pos_part z < 2 ^ 63 + neg_part z) × (neg_part z ≤ 2 ^ 63 + pos_part z)

pub wrap64_lem :
    (z : ℤ) → pos_part z < 2 ^ 63 + neg_part z → neg_part z ≤ 2 ^ 63 + pos_part z → wrap64 z ≡ z
unfolding wrap64
wrap64_lem (pos n) h k = ground arith
wrap64_lem (negsuc n) h k = ground arith

pub wrap64-IsI64 : (z : ℤ) → IsI64 (wrap64 z)
unfolding wrap64
wrap64-IsI64 (pos n) = ground arith
wrap64-IsI64 (negsuc n) = ground arith

-- Within the range the operations are those of the integers.
pub add64-eq-+ℤ :
    (a b : ℤ)
    → pos_part a + pos_part b < 2 ^ 63 + neg_part a + neg_part b
    → neg_part a + neg_part b ≤ 2 ^ 63 + pos_part a + pos_part b
    → add64 a b ≡ a +ℤ b
unfolding add64
add64-eq-+ℤ a b h k = wrap64_lem (a +ℤ b) (omega int_laws) (omega int_laws)

pub sub64-eq--ℤ :
    (a b : ℤ)
    → pos_part a + neg_part b < 2 ^ 63 + neg_part a + pos_part b
    → neg_part a + pos_part b ≤ 2 ^ 63 + pos_part a + neg_part b
    → sub64 a b ≡ a -ℤ b
unfolding sub64
sub64-eq--ℤ a b h k = wrap64_lem (a -ℤ b) (omega int_laws) (omega int_laws)

-- Go's division by a positive number rounds toward zero.
unfoldable pub quotient : ℤ → ℕ → ℤ
quotient (pos n) d = pos (n / d)
quotient (negsuc n) d = if ltb (n + 1) d then pos 0 else negsuc ((n + 1) / d - 1)

-- Division by any number but 0, which panics. The one quotient that does not fit wraps around.
unfoldable pub div64 : ℤ → ℤ → Option ℤ
div64 a (pos zero) = none
div64 a (pos (suc d)) = some (quotient a (suc d))
div64 a (negsuc d) = some (wrap64 (pos 0 -ℤ quotient a (suc d)))

unfoldable pub neg64 : ℤ → ℤ
neg64 a = sub64 (pos 0) a
