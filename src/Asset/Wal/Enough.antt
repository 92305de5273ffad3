-- ===== src/Asset/Wal/Enough.antt =====
-- The fuel of `Recover` is enough for any log.
use little_cex.Prelude.{
  sym, subst, ℕ, zero, suc, ◌+◌, ◌≤◌, ◌<◌, ◌≡◌, ◌≢◌, refl, [], ◌∷◌, Bytes, length, arith, ltb, drop,
  take, nat_beq, ◌*◌, Bool-cases, inl, inr,
}
use little_cex.Asset.Wal.Codec.{WalEntry, ok, too_short, panic, Read, get_le, decode_entry}
use little_cex.Asset.Wal.Log.{
  Frame, end, bad, broken, entry, check_payload, read_payload, read_frame, read_length, read_crc,
  data_too_short, unreadable, crashed, apply_failed, is_empty, Applied, applied, refused, panicked,
  Recovered, out_of_fuel, finished, recover_loop, recover, checksum,
}

-- A read that succeeds leaves `k` bytes less than `m`, at least.
abbrev Leaves : ℕ → ℕ → Read (ℕ × Bytes) → Type 0
Leaves k m (ok (_, rest)) = length rest + k ≤ m
Leaves k m too_short = Unit {0}
Leaves k m panic = Unit {0}

byte_before :
    (b k m : ℕ) (r : Read (ℕ × Bytes))
    → Leaves k m r
    → Leaves
        (suc k)
        (suc m)
        (elim r [ ok (n, rest) ↦ ok (b + 256 * n, rest) | too_short ↦ too_short | panic ↦ panic ])
byte_before b k m (ok (n, rest)) h = omega arith
byte_before b k m too_short h = tt
byte_before b k m panic h = tt

get_le-Leaves : (k : ℕ) (bs : Bytes) → Leaves k (length bs) (get_le k bs)
unfolding get_le
get_le-Leaves zero bs = omega arith
get_le-Leaves (suc k) [] = tt
get_le-Leaves (suc k) (b ∷ bs) = byte_before b k (length bs) (get_le k bs) (get_le-Leaves k bs)

-- A frame that is read leaves fewer bytes.
abbrev Shortens : ℕ → Frame → Type 0
Shortens m (entry _ rest) = length rest < m
Shortens m end = Unit {0}
Shortens m (bad _) = Unit {0}
Shortens m broken = Unit {0}

length-drop : (n : ℕ) (bs : Bytes) → length (drop n bs) ≤ length bs
length-drop zero bs = omega arith
length-drop (suc n) [] = omega arith
length-drop (suc n) (b ∷ bs) = omega (arith, length-drop n bs)

decoded-Shortens :
    (m : ℕ) (rest : Bytes) (r : Read WalEntry)
    → length rest < m
    → Shortens m (elim r [ ok e ↦ entry e rest | too_short ↦ bad data_too_short | panic ↦ broken ])
decoded-Shortens m rest (ok e) h = h
decoded-Shortens m rest too_short h = tt
decoded-Shortens m rest panic h = tt

check_payload-Shortens :
    (m : ℕ) (payload : Bytes) (crc : ℕ) (rest : Bytes)
    → length rest < m
    → Shortens m (check_payload payload crc rest)
check_payload-Shortens m payload crc rest h = elim (Bool-cases (nat_beq (checksum payload) crc)) [
  | inl same ↦ rw same (decoded-Shortens m rest (decode_entry payload) h)
  | inr other ↦ rw other tt
]

crc_read-Shortens :
    (m n : ℕ) (bs : Bytes) (r : Read (ℕ × Bytes))
    → Leaves 4 (length (drop n bs)) r
    → length bs < m
    → Shortens m (elim r [ ok (crc, rest) ↦ check_payload (take n bs) crc rest | _ ↦ bad read_crc ])
crc_read-Shortens m n bs (ok (crc, rest)) h k =
    check_payload-Shortens m (take n bs) crc rest (omega (arith, length-drop n bs))
crc_read-Shortens m n bs too_short h k = tt
crc_read-Shortens m n bs panic h k = tt

read_payload-Shortens : (m n : ℕ) (bs : Bytes) → length bs < m → Shortens m (read_payload n bs)
read_payload-Shortens m n bs h = elim (Bool-cases (ltb (length bs) n)) [
  | inl short ↦ rw short tt
  | inr enough ↦
      rw enough (crc_read-Shortens m n bs (get_le 4 (drop n bs)) (get_le-Leaves 4 (drop n bs)) h)
]

length_read-Shortens :
    (m : ℕ) (r : Read (ℕ × Bytes))
    → Leaves 4 m r
    → Shortens m (elim r [ ok (n, rest) ↦ read_payload n rest | _ ↦ bad read_length ])
length_read-Shortens m (ok (n, rest)) h = read_payload-Shortens m n rest (omega arith)
length_read-Shortens m too_short h = tt
length_read-Shortens m panic h = tt

read_frame-Shortens : (bs : Bytes) → Shortens (length bs) (read_frame bs)
unfolding read_frame
read_frame-Shortens bs = elim (Bool-cases (is_empty bs)) [
  | inl none_left ↦ rw none_left tt
  | inr some_left ↦
      rw some_left (length_read-Shortens (length bs) (get_le 4 bs) (get_le-Leaves 4 bs))
]

module _ {S E : Type 0} (apply : WalEntry → S → Applied E × S) where
  -- The loop goes on with what the callback answers.
  abbrev after_apply : ℕ → ℕ → ℕ → Bytes → Applied E × S → Recovered E × S
  after_apply fuel last seq rest (applied, s) = recover_loop apply fuel rest seq s
  after_apply fuel last seq rest (refused err, s) = (apply_failed last err, s)
  after_apply fuel last seq rest (panicked, s) = (crashed, s)

  abbrev after_frame : ℕ → ℕ → S → Frame → Recovered E × S
  after_frame fuel last s end = (finished last, s)
  after_frame fuel last s (bad e) = (unreadable last e, s)
  after_frame fuel last s broken = (crashed, s)
  after_frame fuel last s (entry e rest) = after_apply fuel last e.seq rest (apply e s)

  after_apply-eq :
      (fuel last seq : ℕ) (rest : Bytes) (r : Applied E × S)
      → after_apply fuel last seq rest r ≡ elim r.0 [
        | applied ↦ recover_loop apply fuel rest seq r.1
        | refused err ↦ (apply_failed last err, r.1)
        | panicked ↦ (crashed, r.1)
      ]
  after_apply-eq fuel last seq rest (applied, s) = refl
  after_apply-eq fuel last seq rest (refused err, s) = refl
  after_apply-eq fuel last seq rest (panicked, s) = refl

  recover_loop-eq-after_frame :
      (fuel last : ℕ) (bs : Bytes) (s : S) (f : Frame)
      → read_frame bs ≡ f
      → recover_loop apply (suc fuel) bs last s ≡ after_frame fuel last s f
  unfolding recover_loop
  recover_loop-eq-after_frame fuel last bs s end e = rw (e, recover_loop) refl
  recover_loop-eq-after_frame fuel last bs s (bad x) e = rw (e, recover_loop) refl
  recover_loop-eq-after_frame fuel last bs s broken e = rw (e, recover_loop) refl
  recover_loop-eq-after_frame fuel last bs s (entry x rest) e =
      rw (e, recover_loop) (sym (after_apply-eq fuel last x.seq rest (apply x s)))

  -- Both end, if the loop ends on every shorter log.
  module _ (fuel : ℕ)
      (go : (last : ℕ) (bs : Bytes) (s : S)
        → length bs < fuel
        → (recover_loop apply fuel bs last s).0 ≢ out_of_fuel) where
    after_apply_ends :
        (last seq : ℕ) (rest : Bytes) (r : Applied E × S)
        → length rest < fuel
        → (after_apply fuel last seq rest r).0 ≢ out_of_fuel
    after_apply_ends last seq rest (applied, s) h = go seq rest s h
    after_apply_ends last seq rest (refused err, s) h = λ e. cc
    after_apply_ends last seq rest (panicked, s) h = λ e. cc

    after_frame_ends :
        (last : ℕ) (s : S) (m : ℕ) (f : Frame)
        → Shortens m f
        → m ≤ fuel
        → (after_frame fuel last s f).0 ≢ out_of_fuel
    after_frame_ends last s m end h k = λ e. cc
    after_frame_ends last s m (bad x) h k = λ e. cc
    after_frame_ends last s m broken h k = λ e. cc
    after_frame_ends last s m (entry x rest) h k =
        after_apply_ends last x.seq rest (apply x s) (omega arith)

  recover_loop_ends :
      (fuel last : ℕ) (bs : Bytes) (s : S)
      → length bs < fuel
      → (recover_loop apply fuel bs last s).0 ≢ out_of_fuel
  recover_loop_ends zero last bs s h = absurd (omega arith)
  recover_loop_ends (suc fuel) last bs s h =
      subst (λ (r : Recovered E × S). r.0 ≢ out_of_fuel)
        (sym (recover_loop-eq-after_frame fuel last bs s (read_frame bs) refl))
        (after_frame_ends fuel (recover_loop_ends fuel) last s (length bs) (read_frame bs)
          (read_frame-Shortens bs) (omega arith))

  -- Recovery comes to an end on any log, whole or torn: its fuel never runs out.
  pub recover_ends : (log : Bytes) (s : S) → (recover apply log s).0 ≢ out_of_fuel
  unfolding recover
  recover_ends log s = recover_loop_ends (suc (length log)) 0 log s (omega arith)
