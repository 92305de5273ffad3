-- ===== src/Futures/Positions.antt =====
-- The store of positions (pkg/futures/position_repo.go): a table, and a cache of its rows. The
-- statements of the database and of the cache are parameters.
pub mod Open
pub mod Memory
use mathlib.Core.List.{Permᴰ}
use little_cex.Prelude.{
  ℕ, ◌≡◌, ◌⊎◌, ℤ, Bool, true, false, not, ◌&&◌, ◌||◌, Option, none, some, List, [], ◌∷◌, ◌++◌, map,
  Bytes, if◌then◌else◌, eqb_ℤ, int_eq, bytes_eq, nat_eq, take, drop, bytes_beq, pair_eq,
}
use little_cex.Futures.Position.{Position, is_empty}

abbrev pub filter : {A : Type 0} → (A → Bool) → List A → List A
filter p [] = []
filter p (x ∷ xs) = if p x then x ∷ filter p xs else filter p xs

pub record PositionStore (Db : Type 0) : Type 0 where
  -- the rows of the table, in any order
  pub rows : Db → List Position
  -- `Find` with a condition, a limit and an offset; `none` is an error of the database
  pub find : (Position → Bool) → ℕ → ℕ → Db → Option (List Position)
  -- `First` with a user and a symbol
  pub first : ℤ → Bytes → Db → Option (Option Position)
  -- `Save` of a row
  pub save_row : Position → Db → Bool × Db
  -- the cache; its entries expire
  pub cached : ℤ → Bytes → Db → Option Position
  pub cache : Position → Db → Db
  pub uncache : ℤ → Bytes → Db → Db

abbrev pub is_row_of : ℤ → Bytes → Position → Bool
is_row_of uid symbol p = eqb_ℤ uid p.user_id && bytes_beq symbol p.symbol

abbrev pub overwritten : Position → List Position → List Position
overwritten p = map (λ q. if is_row_of p.user_id p.symbol q then p else q)

abbrev pub has_row : Position → List Position → Bool
has_row p [] = false
has_row p (q ∷ l) = is_row_of p.user_id p.symbol q || has_row p l

-- A position that has no row yet is put behind the others.
abbrev pub upserted : Position → List Position → List Position
upserted p l = if has_row p l then overwritten p l else l ++ p ∷ []

-- A user has one row for each contract, and a position that is saved was read from its row or is new.
-- No statement asks for an order, so each read is answered from an order of its own.
pub record IsPositionStore {Db : Type 0} (s : PositionStore Db) : Type 0 where
  pub find_lem :
      (cond : Position → Bool) (limit offset : ℕ) (d : Db)
      → (s.find cond limit offset d ≡ none)
        ⊎ ((order : List Position) × Permᴰ order (filter cond (s.rows d))
            × (s.find cond limit offset d ≡ some (take limit (drop offset order))))
  pub save_lem :
      (p : Position) (d : Db)
      → ((s.save_row p d).0 ≡ false) × (s.rows (s.save_row p d).1 ≡ s.rows d)
        ⊎ ((s.save_row p d).0 ≡ true) × (s.rows (s.save_row p d).1 ≡ upserted p (s.rows d))
  pub cache_lem : (p : Position) (d : Db) → s.rows (s.cache p d) ≡ s.rows d
  pub uncache_lem : (uid : ℤ) (symbol : Bytes) (d : Db) → s.rows (s.uncache uid symbol d) ≡ s.rows d

-- The condition of ListBySymbol.
abbrev pub is_open_in : Bytes → Position → Bool
is_open_in symbol p = bytes_beq symbol p.symbol && not (is_empty p)

module _ {Db : Type 0} (store : PositionStore Db) where
  -- `GetByUserAndSymbol`; what it puts into the cache on the side is left aside.
  unfoldable pub get_by_user_and_symbol : ℤ → Bytes → Db → Option (Option Position)
  get_by_user_and_symbol uid symbol d = elim (store.cached uid symbol d) [
    | some p ↦ some (some p)
    | none ↦ store.first uid symbol d
  ]

  unfoldable pub get_by_user : ℤ → ℕ → Db → Option (List Position)
  get_by_user uid limit d = store.find (λ p. eqb_ℤ uid p.user_id && not (is_empty p)) limit 0 d

  unfoldable pub save : Position → Db → Bool × Db
  save p d =
      let (done, d') = store.save_row p d in
      if done
      then (
        true,
        if is_empty p
            then store.uncache p.user_id p.symbol (store.cache p d')
            else store.cache p d',
      )
      else (false, d')

  unfoldable pub list_by_symbol : Bytes → ℕ → ℕ → Db → Option (List Position)
  list_by_symbol symbol limit offset d = store.find (is_open_in symbol) limit offset d

  -- What ListBySymbol pages through.
  abbrev pub open_positions : Bytes → Db → List Position
  open_positions symbol d = filter (is_open_in symbol) (store.rows d)
