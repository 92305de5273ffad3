-- ===== src/Futures/Positions/Memory.antt =====
-- A store of positions in memory, without a cache: it shows that the promises of a store can be kept.
use mathlib.Core.List.Permᴰ
use little_cex.Prelude.{
  inr, refl, true, Option, none, some, List, [], ◌∷◌, int_eq, bytes_eq, nat_eq, take, drop, pair_eq,
}
use little_cex.Futures.Position.{Position}
use little_cex.Futures.Positions.{PositionStore, IsPositionStore, filter, is_row_of, upserted}

abbrev first_of : List Position → Option Position
first_of [] = none
first_of (p ∷ _) = some p

unfoldable pub memory_store : PositionStore (List Position)
memory_store = record {
  rows = λ l. l;
  find = λ cond limit offset l. some (take limit (drop offset (filter cond l)));
  first = λ uid symbol l. some (first_of (filter (is_row_of uid symbol) l));
  save_row = λ p l. (true, upserted p l);
  cached = λ uid symbol l. none;
  cache = λ p l. l;
  uncache = λ uid symbol l. l;
}

pub memory_store-IsPositionStore : IsPositionStore memory_store
unfolding memory_store
memory_store-IsPositionStore = record {
  find_lem = λ cond limit offset l. inr (filter cond l, Permᴰ.refl (filter cond l), refl);
  save_lem = λ p l. inr (refl, refl);
  cache_lem = λ p l. refl;
  uncache_lem = λ uid symbol l. refl;
}
