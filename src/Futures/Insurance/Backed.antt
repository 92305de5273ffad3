-- ===== src/Futures/Insurance/Backed.antt =====
-- Every balance of the insurance fund is backed by its log (pkg/futures/insurance_fund.go).
use little_cex.Prelude.{
  ◌-◌, ◌^◌, ◌≡◌, inl, inr, ◌∙◌, refl, sym, ap, subst, ℤ, pos, ◌+ℤ◌, ◌≤ℤ◌, none, some, Bytes, leb_ℤ,
  arith, Bool-cases, Option-cases, int_eq, bytes_eq, nat_eq, lookup, insert, pair_eq, same_or_not,
  lookup-insert_self, lookup-insert_ne,
}
use little_cex.Futures.Insurance.{
  InsuranceFund, Outcome, asked, rolled_back, transaction, find_or_create, added_entry, add_funds,
  covered_amount, cover_entry, cover_from, cover_bankruptcy,
}
use little_cex.Futures.Insurance.Entries.{
  total, balance_of, IsBacked, Backed-tables, Follows, book-IsBacked, added-Follows, cover-Follows,
}

transaction-IsBacked :
    (f : InsuranceFund) (o : Outcome)
    → IsBacked f
    → (o.0 ≡ none → IsBacked o.1)
    → IsBacked (transaction f o).1
unfolding transaction
transaction-IsBacked f (some e, g) h k = Backed-tables f (rolled_back f g) refl refl h
transaction-IsBacked f (none, g) h k = elim (Bool-cases (g.fails 0)) [
  | inl t ↦ rw t (Backed-tables f (rolled_back f (asked g)) refl refl h)
  | inr t ↦ rw t (Backed-tables g (asked g) refl refl (k refl))
]

-- A new row holds nothing, as before.
created-IsBacked :
    (k : Bytes) (f g : InsuranceFund)
    → lookup k f.rows ≡ none
    → g.rows ≡ insert k (pos 0) f.rows
    → g.logs ≡ f.logs
    → IsBacked f
    → IsBacked g
created-IsBacked k f g n r l h = record {
  backed = λ j. same j ∙ h.backed j ∙ ap (total j) (sym l);
  not_negative = λ j. rw (same j) (h.not_negative j);
  in_range = λ j. rw (same j) (h.in_range j);
}
  where
    same : (j : Bytes) → balance_of j g ≡ balance_of j f
    same j = elim (same_or_not j k) [
      | inl s ↦ rw (r, s, lookup-insert_self k (pos 0) f.rows, n) refl
      | inr o ↦ rw (r, lookup-insert_ne j k (pos 0) f.rows o) refl
    ]

find_or_create-IsBacked :
    (k : Bytes) (go : ℤ → InsuranceFund → Outcome) (f : InsuranceFund)
    → ((b : ℤ) (g : InsuranceFund)
        → balance_of k f ≡ b
        → balance_of k g ≡ b
        → IsBacked g
        → (go b g).0 ≡ none
        → IsBacked (go b g).1)
    → IsBacked f
    → (find_or_create k go f).0 ≡ none
    → IsBacked (find_or_create k go f).1
unfolding find_or_create
find_or_create-IsBacked k go f keep h done = elim (Bool-cases (f.fails 0)) [
  | inl t ↦ absurd (ground arith)
  | inr t ↦ elim (Option-cases (lookup k f.rows)) [
    | inl n ↦ elim (Bool-cases (f.fails 1)) [
      | inl u ↦ absurd (ground arith)
      | inr u ↦
          rw (t, n, u)
            (keep (pos 0) _ (rw n refl) (rw (lookup-insert_self k (pos 0) f.rows) refl)
              (created-IsBacked k f _ n refl refl h) (rw (t, n, u, find_or_create) at done))
    ]
    | inr (b, n) ↦
        rw (t, n)
          (keep b (asked f) (rw n refl) (rw n refl) (Backed-tables f (asked f) refl refl h)
            (rw (t, n, find_or_create) at done))
  ]
]

-- One call of the fund, where what is added keeps the balance in the range of `int64`.
pub data Step (f : InsuranceFund) : InsuranceFund → Type 0 where
  add :
      (currency : Bytes) (amount : ℤ) (change_type : Bytes) (uid : ℤ) (symbol remark : Bytes)
      → balance_of currency f +ℤ amount ≤ℤ pos (2 ^ 63 - 1)
      → Step f (add_funds currency amount change_type uid symbol remark f).1
  cover :
      (currency : Bytes) (amount uid : ℤ) (symbol : Bytes)
      → Step f (cover_bankruptcy currency amount uid symbol f).1.1

pub data Reach (f : InsuranceFund) : InsuranceFund → Type 0 where
  here : Reach f f
  next : {g h : InsuranceFund} → Reach f g → Step g h → Reach f h

add-IsBacked :
    (currency : Bytes) (amount : ℤ) (change_type : Bytes) (uid : ℤ) (symbol remark : Bytes)
    (f : InsuranceFund)
    → balance_of currency f +ℤ amount ≤ℤ pos (2 ^ 63 - 1)
    → IsBacked f
    → IsBacked (add_funds currency amount change_type uid symbol remark f).1
unfolding add_funds added_entry
add-IsBacked currency amount change_type uid symbol remark f fits h =
    elim (Bool-cases (leb_ℤ amount (pos 0))) [
      | inl t ↦ rw t h
      | inr t ↦ rw t (
          transaction-IsBacked f _ h (
            find_or_create-IsBacked currency _ f
              (λ b g e1 e2 k done.
                book-IsBacked (added_entry currency amount change_type uid symbol remark b) g
                  (subst
                    (λ (z : ℤ).
                      Follows (added_entry currency amount change_type uid symbol remark z) g)
                    e2
                    (added-Follows currency amount change_type uid symbol remark g
                      (k.not_negative currency) t (rw (e2 ∙ sym e1) fits)))
                  k done)
              h))
    ]

cover_from-IsBacked :
    (currency : Bytes) (amount uid : ℤ) (symbol : Bytes) (b : ℤ) (g : InsuranceFund)
    → balance_of currency g ≡ b
    → IsBacked g
    → (cover_from currency (covered_amount amount b) uid symbol b g).0 ≡ none
    → IsBacked (cover_from currency (covered_amount amount b) uid symbol b g).1
unfolding cover_from
cover_from-IsBacked currency amount uid symbol b g e h w =
    elim (Bool-cases (leb_ℤ (covered_amount amount b) (pos 0))) [
      | inl t ↦ absurd (ground arith)
      | inr t ↦ rw t (
          book-IsBacked (cover_entry currency (covered_amount amount b) uid symbol b) g
            (subst
              (λ (z : ℤ). Follows (cover_entry currency (covered_amount amount z) uid symbol z) g) e
              (cover-Follows currency amount uid symbol g h (rw e t)))
            h (rw (t, cover_from) at w))
    ]

cover-IsBacked :
    (currency : Bytes) (amount uid : ℤ) (symbol : Bytes) (f : InsuranceFund)
    → IsBacked f
    → IsBacked (cover_bankruptcy currency amount uid symbol f).1.1
unfolding cover_bankruptcy
cover-IsBacked currency amount uid symbol f h = elim (Bool-cases (leb_ℤ amount (pos 0))) [
  | inl t ↦ rw t h
  | inr t ↦ elim (Bool-cases (f.fails 0)) [
    | inl u ↦ rw (t, u) (transaction-IsBacked f _ h (λ w. absurd (cc)))
    | inr u ↦ elim (Option-cases (lookup currency f.rows)) [
      | inl n ↦ rw (t, u, n) (transaction-IsBacked f _ h (λ w. absurd (cc)))
      | inr (b, n) ↦
          rw (t, u, n)
            (transaction-IsBacked f _ h (
              cover_from-IsBacked currency amount uid symbol b (asked f) (rw n refl)
                (Backed-tables f (asked f) refl refl h)))
    ]
  ]
]

Step-IsBacked : {f g : InsuranceFund} → Step f g → IsBacked f → IsBacked g
Step-IsBacked {f} (add currency amount change_type uid symbol remark fits) h =
    add-IsBacked currency amount change_type uid symbol remark f fits h
Step-IsBacked {f} (cover currency amount uid symbol) h =
    cover-IsBacked currency amount uid symbol f h

-- In a fund where the balance of every currency is the sum of its logged changes, is not negative and
-- is in the range of `int64`, all of that stays so along any sequence of additions that keep the
-- balance in range and of bankruptcies that are covered, whatever statements fail on the way.
pub Reach-IsBacked : {f g : InsuranceFund} → Reach f g → IsBacked f → IsBacked g
Reach-IsBacked here h = h
Reach-IsBacked (next r s) h = Step-IsBacked s (Reach-IsBacked r h)
