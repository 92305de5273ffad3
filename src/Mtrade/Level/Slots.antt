-- ===== src/Mtrade/Level/Slots.antt =====
-- The slots of a ring, by their distance from the head.
use Prim.Native.Nat.{bit_and}
use native.Mathlib.Nat.{add_assoc, mod-eq_of_lt, mod-eq-sub-mod}
use native.Mathlib.Decide.{dec_lt, ℕ_discrete}
use little_cex.Prelude.{
  ℕ, zero, suc, ◌+◌, ◌-◌, ◌%◌, ◌≤◌, ◌<◌, ◌≡◌, refl, ◌∙◌, sym, Option, none, List, if◌then◌else◌,
  nat_beq, ltb, leb, ◌&&◌, length, set, get_or-set_self, get_or-set_ne, length-set, arith, ◌⊎◌, inl,
  inr, nat_beq_iff, nat_beq-false,
}
use little_cex.Mtrade.Level.{slot_at, shift_back, shift_forward, copy_slots}

wrap_cases :
    (cap h i : ℕ)
    → h < cap
    → i ≤ cap
    → ((h + i < cap) × ((h + i) % cap ≡ h + i)) ⊎ ((cap ≤ h + i) × ((h + i) % cap ≡ h + i - cap))
wrap_cases cap h i p q = elim (dec_lt (h + i) cap) [
  | yes under ↦ inl (under, mod-eq_of_lt under)
  | no over ↦ inr (
    omega arith,
    mod-eq-sub-mod {n = h + i} {m = cap} (omega arith)
        ∙ mod-eq_of_lt {n = h + i - cap} {m = cap} (omega arith),
  )
]

-- Two places of a ring that are less than its capacity apart are different.
wrap_injective :
    (cap h i j : ℕ) → h < cap → i < cap → j < cap → (h + i) % cap ≡ (h + j) % cap → i ≡ j
wrap_injective cap h i j p q r e =
    omega (arith, wrap_cases cap h i p (omega arith), wrap_cases cap h j p (omega arith))

-- The slot at distance `i` from the head.
abbrev pub slot : List (Option ℕ) → ℕ → ℕ → ℕ → Option ℕ
slot orders cap h i = slot_at orders ((h + i) % cap)

pub slot_at-set :
    (orders : List (Option ℕ)) (i j : ℕ) (v : Option ℕ)
    → i < length orders
    → slot_at (set orders i v) j ≡ (if nat_beq j i then v else slot_at orders j)
slot_at-set orders i j v room = elim (ℕ_discrete j i) [
  | yes e ↦ rw (e, (nat_beq_iff i i).1 refl) (get_or-set_self orders i v none room)
  | no ne ↦ rw (nat_beq-false j i ne) (get_or-set_ne orders v none (λ e. ne (sym e)))
]

-- A write at distance `i` shows at distance `i` alone.
pub slot-set :
    (orders : List (Option ℕ)) (cap h i j : ℕ) (v : Option ℕ)
    → cap ≤ length orders
    → h < cap
    → i < cap
    → j < cap
    → slot (set orders ((h + i) % cap) v) cap h j ≡ (if nat_beq j i then v else slot orders cap h j)
slot-set orders cap h i j v room hh hi hj = elim (ℕ_discrete j i) [
  | yes e ↦
      rw (e, (nat_beq_iff i i).1 refl) (get_or-set_self orders ((h + i) % cap) v none (omega arith))
  | no ne ↦
      rw (nat_beq-false j i ne)
        (get_or-set_ne orders v none (λ e. ne (sym (wrap_injective cap h i j hh hi hj e))))
]

pub length-shift_back :
    (h mask n : ℕ) (orders : List (Option ℕ)) → length (shift_back h mask n orders) ≡ length orders
unfolding shift_back
length-shift_back h mask zero orders = refl
length-shift_back h mask (suc n) orders =
    length-shift_back h mask n _ ∙ length-set orders (bit_and (h + suc n) mask) _

pub length-shift_forward :
    (h mask i n : ℕ) (orders : List (Option ℕ))
    → length (shift_forward h mask i n orders) ≡ length orders
unfolding shift_forward
length-shift_forward h mask i zero orders = refl
length-shift_forward h mask i (suc n) orders =
    length-shift_forward h mask (suc i) n _ ∙ length-set orders (bit_and (h + i) mask) _

pub length-copy_slots :
    (h mask : ℕ) (old : List (Option ℕ)) (i n : ℕ) (fresh : List (Option ℕ))
    → length (copy_slots h mask old i n fresh) ≡ length fresh
unfolding copy_slots
length-copy_slots h mask old i zero fresh = refl
length-copy_slots h mask old i (suc n) fresh =
    length-copy_slots h mask old (suc i) n _ ∙ length-set fresh i _

module _ (cap h mask : ℕ) (masked : (x : ℕ) → bit_and x mask ≡ x % cap) (hh : h < cap) where
  -- The front half after `shift_back`: one place further, from the gap to the head.
  pub slot-shift_back :
      (n j : ℕ) (orders : List (Option ℕ))
      → cap ≤ length orders
      → n < cap
      → j < cap
      → slot (shift_back h mask n orders) cap h j
        ≡ (if ltb 0 j && leb j n then slot orders cap h (j - 1) else slot orders cap h j)
  unfolding shift_back
  slot-shift_back zero j orders room hn hj = ground arith
  slot-shift_back (suc n) j orders room hn hj =
      rw (masked (h + suc n), masked (h + suc n - 1), before)
        (ground (
          arith,
          slot-shift_back n j moved (omega (arith, length-set orders ((h + suc n) % cap) v)),
          slot-set orders cap h (suc n) j v room hh hn,
          slot-set orders cap h (suc n) (j - 1) v room hh hn,
        ))
    where
      v : Option ℕ
      v = slot orders cap h n

      moved : List (Option ℕ)
      moved = set orders ((h + suc n) % cap) v

      before : h + suc n - 1 ≡ h + n
      before = omega arith

  pub slot-shift_forward :
      (i n j : ℕ) (orders : List (Option ℕ))
      → cap ≤ length orders
      → i + n < cap
      → j < cap
      → slot (shift_forward h mask i n orders) cap h j
        ≡ (if leb i j && ltb j (i + n) then slot orders cap h (j + 1) else slot orders cap h j)
  unfolding shift_forward
  slot-shift_forward i zero j orders room hn hj = ground arith
  slot-shift_forward i (suc n) j orders room hn hj =
      rw (masked (h + i), masked (h + i + 1), add_assoc h i 1)
        (ground (
          arith,
          slot-shift_forward (suc i) n j moved (omega (arith, length-set orders ((h + i) % cap) v)),
          slot-set orders cap h i j v room hh (omega arith),
          slot-set orders cap h i (j + 1) v room hh (omega arith),
        ))
    where
      v : Option ℕ
      v = slot orders cap h (i + 1)

      moved : List (Option ℕ)
      moved = set orders ((h + i) % cap) v

  pub slot_at-copy_slots :
      (old : List (Option ℕ)) (i n j : ℕ) (fresh : List (Option ℕ))
      → i + n ≤ length fresh
      → slot_at (copy_slots h mask old i n fresh) j
        ≡ (if leb i j && ltb j (i + n) then slot old cap h j else slot_at fresh j)
  unfolding copy_slots
  slot_at-copy_slots old i zero j fresh room = ground arith
  slot_at-copy_slots old i (suc n) j fresh room = rw (masked (h + i)) (
      ground (
        arith,
        slot_at-copy_slots old (suc i) n j filled (omega (arith, length-set fresh i v)),
        slot_at-set fresh i j v,
      ))
    where
      v : Option ℕ
      v = slot old cap h i

      filled : List (Option ℕ)
      filled = set fresh i v
