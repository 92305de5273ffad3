-- ===== src/Futures/Insurance/Entries.antt =====
-- The balance of a currency in the insurance fund and the sum of its log, through one entry of the log
-- (pkg/futures/insurance_fund.go).
use little_cex.Prelude.{
  ◌-◌, ◌^◌, ◌≡◌, inl, inr, ◌∙◌, refl, sym, ap, ℤ, pos, ◌+ℤ◌, ◌-ℤ◌, ◌≤ℤ◌, ◌<ℤ◌, false, none, List,
  [], ◌∷◌, Bytes, if◌then◌else◌, leb_ℤ, arith, int_laws, add64, sub64, neg64, Bool-cases, int_eq,
  bytes_eq, nat_eq, lookup, insert, bytes_beq, pair_eq, bytes_beq_iff, lookup-insert, +ℤ_parts,
  add64-eq-+ℤ, sub64-eq--ℤ, eq_of_parts, -ℤ_parts,
}
use little_cex.Futures.Insurance.{
  InsuranceFund, InsuranceFundLog, or_zero, book, added_entry, covered_amount, cover_entry,
}

-- The sum of a currency's changes.
abbrev pub total : Bytes → List InsuranceFundLog → ℤ
total k [] = pos 0
total k (e ∷ logs) = if bytes_beq k e.currency then total k logs +ℤ e.amount else total k logs

abbrev pub balance_of : Bytes → InsuranceFund → ℤ
balance_of k f = or_zero (lookup k f.rows)

pub record IsBacked (f : InsuranceFund) : Type 0 where
  pub backed : (k : Bytes) → balance_of k f ≡ total k f.logs
  pub not_negative : (k : Bytes) → pos 0 ≤ℤ balance_of k f
  pub in_range : (k : Bytes) → balance_of k f ≤ℤ pos (2 ^ 63 - 1)

-- The tables of one fund are those of another.
pub Backed-tables :
    (f g : InsuranceFund) → g.rows ≡ f.rows → g.logs ≡ f.logs → IsBacked f → IsBacked g
Backed-tables f g r l h = record {
  backed = λ k. rw (r, l) (h.backed k);
  not_negative = λ k. rw r (h.not_negative k);
  in_range = λ k. rw r (h.in_range k);
}

-- An entry whose balance is the old one with the amount, neither negative nor too large.
pub record Follows (entry : InsuranceFundLog) (f : InsuranceFund) : Type 0 where
  pub sum : entry.balance_after ≡ balance_of entry.currency f +ℤ entry.amount
  pub not_negative : pos 0 ≤ℤ entry.balance_after
  pub in_range : entry.balance_after ≤ℤ pos (2 ^ 63 - 1)

entered_balance :
    (entry : InsuranceFundLog) (f g : InsuranceFund) (k : Bytes)
    → g.rows ≡ insert entry.currency entry.balance_after f.rows
    → balance_of k g ≡ (if bytes_beq k entry.currency then entry.balance_after else balance_of k f)
entered_balance entry f g k r =
    rw (r, lookup-insert k entry.currency entry.balance_after f.rows)
      (elim (Bool-cases (bytes_beq k entry.currency)) [ inl t ↦ rw t refl | inr t ↦ rw t refl ])

entered :
    (entry : InsuranceFundLog) (f g : InsuranceFund)
    → g.rows ≡ insert entry.currency entry.balance_after f.rows
    → g.logs ≡ entry ∷ f.logs
    → Follows entry f
    → IsBacked f
    → IsBacked g
entered entry f g r l e h = record {
  backed = λ k. entered_balance entry f g k r ∙ sum k ∙ ap (total k) (sym l);
  not_negative = λ k. ground (arith, entered_balance entry f g k r, h.not_negative k);
  in_range = λ k. ground (arith, entered_balance entry f g k r, h.in_range k);
}
  where
    sum :
        (k : Bytes)
        → (if bytes_beq k entry.currency then entry.balance_after else balance_of k f)
          ≡ total k (entry ∷ f.logs)
    sum k = elim (Bool-cases (bytes_beq k entry.currency)) [
      | inl t ↦ rw t (
          e.sum
          ∙ ap (λ (z : ℤ). z +ℤ entry.amount)
              (ap (λ (j : Bytes). balance_of j f) (sym ((bytes_beq_iff k entry.currency).0 t))
                ∙ h.backed k))
      | inr t ↦ rw t (h.backed k)
    ]

pub book-IsBacked :
    (entry : InsuranceFundLog) (f : InsuranceFund)
    → Follows entry f
    → IsBacked f
    → (book entry f).0 ≡ none
    → IsBacked (book entry f).1
unfolding book
book-IsBacked entry f e h done = elim (Bool-cases (f.fails 0)) [
  | inl t ↦ absurd (ground arith)
  | inr t ↦ elim (Bool-cases (f.fails 1)) [
    | inl u ↦ absurd (ground arith)
    | inr u ↦ rw (t, u) (entered entry f _ refl refl e h)
  ]
]

-- What is added to a balance that is not negative.
added_sum :
    (b amount : ℤ)
    → pos 0 ≤ℤ b
    → leb_ℤ amount (pos 0) ≡ false
    → b +ℤ amount ≤ℤ pos (2 ^ 63 - 1)
    → add64 b amount ≡ b +ℤ amount
added_sum b amount n t fits =
    add64-eq-+ℤ b amount (omega (int_laws, +ℤ_parts b amount)) (ground arith)

pub added-Follows :
    (currency : Bytes) (amount : ℤ) (change_type : Bytes) (uid : ℤ) (symbol remark : Bytes)
    (g : InsuranceFund)
    → pos 0 ≤ℤ balance_of currency g
    → leb_ℤ amount (pos 0) ≡ false
    → balance_of currency g +ℤ amount ≤ℤ pos (2 ^ 63 - 1)
    → Follows (added_entry currency amount change_type uid symbol remark (balance_of currency g)) g
unfolding added_entry
added-Follows currency amount change_type uid symbol remark g n t fits =
    let sum : add64 (balance_of currency g) amount ≡ balance_of currency g +ℤ amount =
      added_sum (balance_of currency g) amount n t fits in
    record {
      sum = sum;
      not_negative = rw sum (ground (arith, +ℤ_parts (balance_of currency g) amount));
      in_range = rw sum fits;
    }

negated : (c : ℤ) → pos 0 ≤ℤ c → c ≤ℤ pos (2 ^ 63 - 1) → neg64 c ≡ pos 0 -ℤ c
unfolding neg64
negated c n r = sub64-eq--ℤ (pos 0) c (omega int_laws) (omega int_laws)

-- What is taken from a balance that holds it.
taken :
    (b c : ℤ)
    → pos 0 ≤ℤ b
    → b ≤ℤ pos (2 ^ 63 - 1)
    → pos 0 <ℤ c
    → c ≤ℤ b
    → (sub64 b c ≡ b +ℤ neg64 c) × (pos 0 ≤ℤ sub64 b c) × (sub64 b c ≤ℤ pos (2 ^ 63 - 1))
taken b c n r p l =
    let minus : neg64 c ≡ pos 0 -ℤ c = negated c (omega (arith)) (omega (arith)) in
    let left : sub64 b c ≡ b -ℤ c = sub64-eq--ℤ b c (omega int_laws) (omega int_laws) in
    (
      rw (left, minus)
          (eq_of_parts _ _
            (omega (int_laws, -ℤ_parts b c, -ℤ_parts (pos 0) c, +ℤ_parts b (pos 0 -ℤ c)))),
      rw left (omega (arith, -ℤ_parts b c)),
      rw left (omega (arith, -ℤ_parts b c)),
    )

covered_amount-le : (a b : ℤ) → covered_amount a b ≤ℤ b
unfolding covered_amount
covered_amount-le a b = ground arith

pub cover-Follows :
    (currency : Bytes) (amount uid : ℤ) (symbol : Bytes) (g : InsuranceFund)
    → IsBacked g
    → leb_ℤ (covered_amount amount (balance_of currency g)) (pos 0) ≡ false
    → Follows
        (cover_entry currency
          (covered_amount amount (balance_of currency g))
          uid
          symbol
          (balance_of currency g))
        g
unfolding cover_entry
cover-Follows currency amount uid symbol g h t =
    let (sum, low, high) =
      taken (balance_of currency g) (covered_amount amount (balance_of currency g))
        (h.not_negative currency) (h.in_range currency) (ground arith)
        (covered_amount-le amount (balance_of currency g)) in
    record { sum = sum; not_negative = low; in_range = high }
