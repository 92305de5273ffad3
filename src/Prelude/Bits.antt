-- ===== src/Prelude/Bits.antt =====
-- `x & mask` for a mask of `k` ones is the remainder modulo 2^k.
use Prim.Native.Nat.{
  ℕ, zero, suc, ◌+◌, ◌-◌, ◌*◌, ◌/◌, ◌%◌, ◌^◌, ◌≤◌, ◌<◌, min, bit_and, digits, bit_and-bitwise,
}
use native.Mathlib.Nat.{pow-suc, div-add-mod, mod-lt, mod-eq_of_lt, add-mul-mod_self_left}
use mathlib.Core.Path.{◌≡◌, refl, ◌∙◌, ap, sym}
use native.Mathlib.Omega.{arith}

-- The digits of `a & b`, at most `fuel` of them.
abbrev and_upto : ℕ → ℕ → ℕ → ℕ
and_upto fuel a b = digits (λ _. 0) min fuel a b

-- Fuel above the first operand changes nothing.
and_upto_enough : (f g a b : ℕ) → a ≤ f → a ≤ g → and_upto f a b ≡ and_upto g a b
and_upto_enough zero zero a b p q = refl
and_upto_enough zero (suc g) zero b p q = refl
and_upto_enough (suc f) zero zero b p q = refl
and_upto_enough (suc f) (suc g) zero b p q = refl
and_upto_enough zero (suc g) (suc a) b p q = absurd (omega arith)
and_upto_enough (suc f) zero (suc a) b p q = absurd (omega arith)
and_upto_enough (suc f) (suc g) (suc a) b p q =
    ap (λ (t : ℕ). t * 2 + min (suc a % 2) (b % 2))
      (and_upto_enough f g (suc a / 2) (b / 2) (omega arith) (omega arith))

bit_and-halves : (a b : ℕ) → bit_and a b ≡ bit_and (a / 2) (b / 2) * 2 + min (a % 2) (b % 2)
bit_and-halves zero b = omega (arith, bit_and-bitwise 0 b, bit_and-bitwise 0 (b / 2))
bit_and-halves (suc a) b = omega (
  arith,
  bit_and-bitwise (suc a) b,
  bit_and-bitwise (suc a / 2) (b / 2),
  and_upto_enough a (suc a / 2) (suc a / 2) (b / 2) (omega arith) (omega arith),
)

bit_and-zero_upto : (n a : ℕ) → a ≤ n → bit_and a 0 ≡ 0
bit_and-zero_upto zero zero h = bit_and-bitwise 0 0
bit_and-zero_upto zero (suc a) h = absurd (omega arith)
bit_and-zero_upto (suc n) a h =
    omega (arith, bit_and-halves a 0, bit_and-zero_upto n (a / 2) (omega arith))

-- Doubling the modulus adds a digit.
mod_double : (a m : ℕ) → 0 < m → (a / 2 % m) * 2 + a % 2 ≡ a % (m * 2)
mod_double a m h =
    sym (mod-eq_of_lt {n = (a / 2 % m) * 2 + a % 2} {m = m * 2} (omega (arith, mod-lt (a / 2) h)))
    ∙ sym (add-mul-mod_self_left ((a / 2 % m) * 2 + a % 2) (m * 2) (a / 2 / m))
    ∙ ap (λ (t : ℕ). t % (m * 2)) (omega (arith, div-add-mod (a / 2) m))

pow_pos : (k : ℕ) → 0 < 2 ^ k
pow_pos zero = omega arith
pow_pos (suc k) = omega (arith, pow_pos k, pow-suc 2 k)

pub bit_and-mask : (k a : ℕ) → bit_and a (2 ^ k - 1) ≡ a % 2 ^ k
bit_and-mask zero a = omega (arith, bit_and-zero_upto a a (omega arith))
bit_and-mask (suc k) a =
    rw (bit_and-halves a (2 ^ suc k - 1), half, odd, bit_and-mask k (a / 2))
      (omega (arith, mod_double a (2 ^ k) (pow_pos k), ap (λ (t : ℕ). a % t) (pow-suc 2 k)))
  where
    half : (2 ^ suc k - 1) / 2 ≡ 2 ^ k - 1
    half = omega (arith, pow-suc 2 k, pow_pos k)

    odd : (2 ^ suc k - 1) % 2 ≡ 1
    odd = omega (arith, pow-suc 2 k, pow_pos k)
