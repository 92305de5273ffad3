-- ===== src/Futures/MarkPrice.antt =====
-- The prices that the services read (pkg/futures/mark_price_service.go). The callback of an update is
-- that of the service that asked for it, a parameter.
use little_cex.Prelude.{
  ℤ, pos, negsuc, Bool, Option, none, some, Bytes, Map, if◌then◌else◌, ltb_ℤ, eqb_ℤ, sub64, int_eq,
  bytes_eq, nat_eq, lookup, insert, pair_eq,
}

pub record MarkPriceInfo : Type 0 where
  pub symbol : Bytes
  pub mark_price : ℤ
  pub index_price : ℤ
  pub funding_rate : ℤ
  pub next_funding : ℤ
  -- 0 for a perpetual contract
  pub expiry_time : ℤ
  pub updated_at : ℤ

unfoldable pub is_perpetual_price : MarkPriceInfo → Bool
is_perpetual_price m = eqb_ℤ m.expiry_time (pos 0)

unfoldable pub is_delivery_price : MarkPriceInfo → Bool
is_delivery_price m = ltb_ℤ (pos 0) m.expiry_time

unfoldable pub time_to_expiry : MarkPriceInfo → ℤ → ℤ
time_to_expiry m now = if eqb_ℤ m.expiry_time (pos 0) then negsuc 0 else sub64 m.expiry_time now

-- `prices`
abbrev pub Prices : Type 0
Prices = Map Bytes MarkPriceInfo

abbrev mark_or_zero : Option MarkPriceInfo → ℤ
mark_or_zero none = pos 0
mark_or_zero (some m) = m.mark_price

abbrev index_or_zero : Option MarkPriceInfo → ℤ
index_or_zero none = pos 0
index_or_zero (some m) = m.index_price

unfoldable pub get_mark_price : Bytes → Prices → ℤ
get_mark_price symbol prices = mark_or_zero (lookup symbol prices)

unfoldable pub get_index_price : Bytes → Prices → ℤ
get_index_price symbol prices = index_or_zero (lookup symbol prices)

unfoldable pub get_price_info : Bytes → Prices → Option MarkPriceInfo
get_price_info symbol prices = lookup symbol prices

abbrev info_or_new : Bytes → Option MarkPriceInfo → MarkPriceInfo
info_or_new symbol none = record {
  symbol = symbol;
  mark_price = pos 0;
  index_price = pos 0;
  funding_rate = pos 0;
  next_funding = pos 0;
  expiry_time = pos 0;
  updated_at = pos 0;
}
info_or_new symbol (some m) = m

module _ {S : Type 0} (on_price_update : Bytes → MarkPriceInfo → S → S) where
  unfoldable pub update_mark_price : Bytes → ℤ → ℤ → Prices × S → Prices × S
  update_mark_price symbol price now (prices, s) =
      let info = record (info_or_new symbol (lookup symbol prices)) {
        mark_price = price;
        updated_at = now;
      } in
      (insert symbol info prices, on_price_update symbol info s)

  -- A nil information is `none`.
  unfoldable pub update_price_info : Option MarkPriceInfo → ℤ → Prices × S → Prices × S
  update_price_info none now st = st
  update_price_info (some m) now (prices, s) =
      let info = record m { updated_at = now } in
      (insert m.symbol info prices, on_price_update m.symbol info s)
