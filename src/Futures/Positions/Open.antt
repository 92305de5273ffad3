-- ===== src/Futures/Positions/Open.antt =====
-- What saving a closed position does to the list that ListBySymbol pages through
-- (pkg/futures/position_repo.go).
use little_cex.Prelude.{
  ◌≡◌, ◌⊎◌, inl, inr, ◌∙◌, refl, ap, ℤ, true, false, not, List, [], ◌∷◌, ◌++◌, Bytes, eqb_ℤ, arith,
  Bool-cases, int_eq, bytes_eq, nat_eq, pair_eq, bytes_beq_iff,
}
use little_cex.Futures.Position.{Position, is_empty}
use little_cex.Futures.Positions.{
  PositionStore, IsPositionStore, save, open_positions, overwritten, is_open_in, filter, has_row,
  upserted,
}

-- The positions of other users.
abbrev pub without : ℤ → List Position → List Position
without uid = filter (λ p. not (eqb_ℤ uid p.user_id))

-- A saved position that is closed goes out of the list of its contract.
pub overwritten-closed :
    (p : Position) (l : List Position)
    → is_empty p ≡ true
    → filter (is_open_in p.symbol) (overwritten p l)
      ≡ without p.user_id (filter (is_open_in p.symbol) l)
overwritten-closed p [] h = refl
overwritten-closed p (q ∷ l) h =
    ground (arith, overwritten-closed p l h, bytes_beq_iff p.symbol p.symbol)

appended-closed :
    (symbol : Bytes) (p : Position) (l : List Position)
    → is_open_in symbol p ≡ false
    → filter (is_open_in symbol) (l ++ p ∷ []) ≡ filter (is_open_in symbol) l
appended-closed symbol p [] h = rw h refl
appended-closed symbol p (q ∷ l) h = ground (arith, appended-closed symbol p l h)

-- Where a position has no row, no position of its user is listed.
absent_row :
    (p : Position) (l : List Position)
    → has_row p l ≡ false
    → filter (is_open_in p.symbol) l ≡ without p.user_id (filter (is_open_in p.symbol) l)
absent_row p [] h = refl
absent_row p (q ∷ l) h =
    let later : has_row p l ≡ false = ground arith in ground (arith, absent_row p l later)

module _ {Db : Type 0} (store : PositionStore Db) (law : IsPositionStore store) where
  saved : (p : Position) (d : Db) → (store.save_row p d).0 ≡ false → (save store p d).0 ≡ true → ⊥
  unfolding save
  saved p d e h = ground arith

  rows-save :
      (p : Position) (d : Db) → store.rows (save store p d).1 ≡ store.rows (store.save_row p d).1
  unfolding save
  rows-save p d = elim (Bool-cases (store.save_row p d).0) [
    | inl t ↦ rw t (elim (Bool-cases (is_empty p)) [
      | inl e ↦ rw e (law.uncache_lem p.user_id p.symbol _ ∙ law.cache_lem p _)
      | inr e ↦ rw e (law.cache_lem p _)
    ])
    | inr t ↦ rw t refl
  ]

  -- A save that succeeds writes the position's row.
  pub save-rows :
      (p : Position) (d : Db)
      → (save store p d).0 ≡ true
      → store.rows (save store p d).1 ≡ upserted p (store.rows d)
  save-rows p d done = elim (law.save_lem p d) [
    | inl (e, _) ↦ absurd (saved p d e done)
    | inr (_, e) ↦ rows-save p d ∙ e
  ]

  -- Saving a closed position leaves the open ones of its contract, or takes its user's out of them.
  pub save-closed :
      (p : Position) (d : Db)
      → is_empty p ≡ true
      → (open_positions store p.symbol (save store p d).1 ≡ open_positions store p.symbol d)
        ⊎ (open_positions store p.symbol (save store p d).1
            ≡ without p.user_id (open_positions store p.symbol d))
  save-closed p d h = elim (law.save_lem p d) [
    | inl (_, e) ↦ inl (ap (filter (is_open_in p.symbol)) (rows-save p d ∙ e))
    | inr (_, e) ↦ elim (Bool-cases (has_row p (store.rows d))) [
      | inl t ↦ inr (
          ap (filter (is_open_in p.symbol)) (rows-save p d ∙ e ∙ rw t refl)
          ∙ overwritten-closed p (store.rows d) h)
      | inr t ↦ inl (
          ap (filter (is_open_in p.symbol)) (rows-save p d ∙ e ∙ rw t refl)
          ∙ appended-closed p.symbol p (store.rows d) (ground arith))
    ]
  ]

  -- If the call succeeds, the user's position is out of the list.
  pub save-removes :
      (p : Position) (d : Db)
      → is_empty p ≡ true
      → (save store p d).0 ≡ true
      → open_positions store p.symbol (save store p d).1
        ≡ without p.user_id (open_positions store p.symbol d)
  save-removes p d h done = elim (law.save_lem p d) [
    | inl (e, _) ↦ absurd (saved p d e done)
    | inr (_, e) ↦ elim (Bool-cases (has_row p (store.rows d))) [
      | inl t ↦
          ap (filter (is_open_in p.symbol)) (rows-save p d ∙ e ∙ rw t refl)
          ∙ overwritten-closed p (store.rows d) h
      | inr t ↦
          ap (filter (is_open_in p.symbol)) (rows-save p d ∙ e ∙ rw t refl)
          ∙ appended-closed p.symbol p (store.rows d) (ground arith)
          ∙ absent_row p (store.rows d) t
    ]
  ]
