-- ===== src/Mtrade/Log/Ends.antt =====
-- Reading the log ends (ReadAll of pkg/mtrade/wal.go).
use little_cex.Prelude.{
  ℕ, zero, suc, ◌≤◌, ◌<◌, ◌≡◌, ◌≢◌, inl, inr, refl, ap, none, [], ◌∷◌, Bytes, ltb, arith,
  Bool-cases, Option-cases, length, int_eq, bytes_eq, nat_eq, take, drop, pair_eq,
}
use little_cex.Mtrade.Log.{
  LogEntry, read_entry, read_field, read_all, found, at_end, failed, Found, number, is_valid,
}

length-drop_le : (n : ℕ) (xs : Bytes) → length (drop n xs) ≤ length xs
length-drop_le zero xs = omega arith
length-drop_le (suc n) [] = omega arith
length-drop_le (suc n) (x ∷ xs) = omega (arith, length-drop_le n xs)

length-drop_lt : (n : ℕ) (xs : Bytes) → 0 < n → n ≤ length xs → length (drop n xs) < length xs
length-drop_lt zero xs h k = absurd (omega arith)
length-drop_lt (suc n) [] h k = absurd (omega arith)
length-drop_lt (suc n) (x ∷ xs) h k = omega (arith, length-drop_le n xs)

-- What follows a field is read from what the field leaves.
read_field-found :
    (n : ℕ) (bs : Bytes) (next : Bytes → Bytes → Found) (e : LogEntry) (rest : Bytes)
    → read_field n bs next ≡ found e rest
    → (next (take n bs) (drop n bs) ≡ found e rest) × (n ≤ length bs)
unfolding read_field
read_field-found n bs next e rest h = elim (Bool-cases (ltb (length bs) n)) [
  | inl few ↦ absurd (ground arith)
  | inr enough ↦ (rw enough at h, ground arith)
]

abbrev left_by : Found → Bytes
left_by (found _ rest) = rest
left_by at_end = []
left_by failed = []

read_entry-shorter :
    (bs : Bytes) (e : LogEntry) (rest : Bytes)
    → read_entry bs ≡ found e rest
    → length rest < length bs
unfolding read_entry
read_entry-shorter bs e rest h =
    let bs1 : Bytes = drop 8 bs in
    let bs2 : Bytes = drop 8 bs1 in
    let bs3 : Bytes = drop 1 bs2 in
    let bs4 : Bytes = drop 4 bs3 in
    let size : ℕ = number 4 (take 4 bs3) in
    let (h1, enough) = read_field-found 8 bs _ e rest h in
    let (h2, _) = read_field-found 8 bs1 _ e rest h1 in
    let (h3, _) = read_field-found 1 bs2 _ e rest h2 in
    let (h4, _) = read_field-found 4 bs3 _ e rest h3 in
    let (h5, _) = read_field-found size bs4 _ e rest h4 in
    let (h6, _) = read_field-found 4 (drop size bs4) _ e rest h5 in
    omega (
      arith,
      ap (λ (o : Found). length (left_by o)) h6,
      length-drop_lt 8 bs (omega arith) enough,
      length-drop_le 8 bs1,
      length-drop_le 1 bs2,
      length-drop_le 4 bs3,
      length-drop_le size bs4,
      length-drop_le 4 (drop size bs4),
    )

round_ends :
    (fuel : ℕ) (bs : Bytes)
    → ((rest : Bytes) → length rest < fuel → read_all fuel rest ≢ none)
    → length bs < suc fuel
    → read_all (suc fuel) bs ≢ none
unfolding read_all
round_ends fuel bs later h = go (read_entry bs) refl
  where
    go : (o : Found) → read_entry bs ≡ o → read_all (suc fuel) bs ≢ none
    go at_end e = rw (e, read_all) (λ q. cc)
    go failed e = rw (e, read_all) (λ q. cc)
    go (found en rest) e = elim (Bool-cases (is_valid en)) [
      | inr bad ↦ rw (e, bad, read_all) (λ q. cc)
      | inl good ↦ elim (Option-cases (read_all fuel rest)) [
        | inl n ↦ absurd (later rest (omega (arith, h, read_entry-shorter bs en rest e)) n)
        | inr (x, s) ↦ rw (e, good, s, read_all) (λ q. cc)
      ]
    ]

-- Reading a log of fewer bytes than there are rounds ends.
read_all_ends : (fuel : ℕ) (bs : Bytes) → length bs < fuel → read_all fuel bs ≢ none
read_all_ends zero bs h = absurd (omega arith)
read_all_ends (suc fuel) bs h = round_ends fuel bs (read_all_ends fuel) h
