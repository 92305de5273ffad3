-- ===== src/Mtrade/Level/Table.antt =====
-- Lists written as tables of a function, for the contents of a ring.
use little_cex.Prelude.{
  ℕ, zero, suc, ◌+◌, ◌≤◌, ◌<◌, ◌≡◌, refl, ap, ap₂, ◌∙◌, List, [], ◌∷◌, ◌++◌, if◌then◌else◌, ltb,
  arith, length,
}

module _ {A : Type 0} where
  -- `f i`, `f (i+1)`, and so on, `n` of them.
  abbrev pub table : (ℕ → A) → ℕ → ℕ → List A
  table f i zero = []
  table f i (suc n) = f i ∷ table f (suc i) n

  -- `xs` without its element at `i`.
  abbrev pub erase_at : ℕ → List A → List A
  erase_at i [] = []
  erase_at zero (_ ∷ xs) = xs
  erase_at (suc i) (x ∷ xs) = x ∷ erase_at i xs

  pub table-cong :
      (f g : ℕ → A) (i n : ℕ)
      → ((j : ℕ) → i ≤ j → j < i + n → f j ≡ g j)
      → table f i n ≡ table g i n
  table-cong f g i zero h = refl
  table-cong f g i (suc n) h =
      ap₂ (λ (x : A) (xs : List A). x ∷ xs) (h i (omega arith) (omega arith))
        (table-cong f g (suc i) n (λ j p q. h j (omega arith) (omega arith)))

  pub table-suc : (f : ℕ → A) (i n : ℕ) → table f (suc i) n ≡ table (λ j. f (suc j)) i n
  table-suc f i zero = refl
  table-suc f i (suc n) = ap (λ (xs : List A). f (suc i) ∷ xs) (table-suc f (suc i) n)

  pub table-snoc : (f : ℕ → A) (i n : ℕ) → table f i (suc n) ≡ table f i n ++ (f (i + n) ∷ [])
  table-snoc f i zero = ap (λ (k : ℕ). f k ∷ []) (omega arith)
  table-snoc f i (suc n) =
      ap (λ (xs : List A). f i ∷ xs)
        (table-snoc f (suc i) n ∙ ap (λ (k : ℕ). table f (suc i) n ++ (f k ∷ [])) (omega arith))

  pub length-table : (f : ℕ → A) (i n : ℕ) → length (table f i n) ≡ n
  length-table f i zero = refl
  length-table f i (suc n) = ap suc (length-table f (suc i) n)

  -- The function that skips one argument.
  abbrev pub skip : ℕ → (ℕ → A) → ℕ → A
  skip k f j = if ltb j k then f j else f (suc j)

  pub erase_at-table :
      (f : ℕ → A) (i o n : ℕ) → o ≤ n → erase_at o (table f i (suc n)) ≡ table (skip (i + o) f) i n
  erase_at-table f i zero n h =
      table-suc f i n ∙ table-cong (λ j. f (suc j)) (skip (i + zero) f) i n (λ j p q. ground arith)
  erase_at-table f i (suc o) zero h = absurd (omega arith)
  erase_at-table f i (suc o) (suc n) h =
      ap₂ (λ (x : A) (xs : List A). x ∷ xs) (ground arith)
        (erase_at-table f (suc i) o n (omega arith)
          ∙ ap (λ (k : ℕ). table (skip k f) (suc i) n) (omega arith))
