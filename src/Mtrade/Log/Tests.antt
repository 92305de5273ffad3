-- ===== src/Mtrade/Log/Tests.antt =====
-- Runs of the trading log: an order that is written and read back, and a checkpoint.
use little_cex.Prelude.{
  ℕ, ◌+◌, ◌≡◌, refl, pos, Bool, Option, none, some, List, [], ◌∷◌, arith, take, ascii, int_eq,
  nat_eq, bytes_eq, pair_eq,
}
use little_cex.Asset.Wal.{
  Read, ok, too_short, panic, le, put_text, get_le, get_text, get_bytes, checksum,
}
use little_cex.Mtrade.Order.{Order, buy, limit, new}
use little_cex.Mtrade.Log.{
  image_of, TradingLog, LogEntry, write_order, create_checkpoint, load_checkpoint, read_all,
  write_cancel_order, get_last_sequence, Image, decode_order, encode_order, read_entry,
  encode_image, read_field, fill_buffer, read_orders, write_log, entry_bytes, order_fields,
  finish_entry, is_valid, stamped, calculate_checksum, stamp, new_log,
}
use little_cex.Mtrade.Log.Frames.{IsStorable}
use little_cex.Mtrade.Log.Garbled.{IsGarbled, write_order-IsGarbled}

abbrev bid : Order
bid = record {
  id = pos 42;
  user_id = pos 7;
  symbol = ascii "BTC_USDT";
  side = buy;
  type_ = limit;
  price = pos 50000;
  qty = pos 3;
  filled_qty = pos 0;
  status = new;
  created_at = pos 1700000000;
}

abbrev empty_log : TradingLog
empty_log = record {
  sequence = 0;
  log = [];
  buf = [];
  clock = λ n. pos (1700000001 + n);
  disk = λ n. none;
}

bid-IsStorable : IsStorable (image_of bid)
bid-IsStorable = record {
  id_fits = omega arith;
  user_id_fits = omega arith;
  price_fits = omega arith;
  qty_fits = omega arith;
  filled_qty_fits = omega arith;
  created_at_fits = omega arith;
  symbol_fits = omega arith;
}

write_order-IsGarbled_example :
    (e : LogEntry) × IsGarbled bid empty_log (write_order bid empty_log).1 e
write_order-IsGarbled_example =
    write_order-IsGarbled bid empty_log bid-IsStorable (omega arith) refl

abbrev image_in : Read Image → Option Image
image_in (ok o) = some o
image_in too_short = none
image_in panic = none

abbrev first_order : Option (List LogEntry × Bool) → Option Image
first_order (some (e ∷ entries, fine)) = image_in (decode_order e.data_)
first_order (some ([], fine)) = none
first_order none = none

-- The order that is read back is the order 1 of user 1700000001, at the price 49921.
read_back :
    first_order (read_all 2 (write_order bid empty_log).1.log)
    ≡ some (record (image_of bid) { id = pos 1; user_id = pos 1700000001; price = pos 49921 })
unfolding read_all read_entry read_field write_order fill_buffer write_log entry_bytes le
    encode_order encode_image put_text finish_entry stamped get_le is_valid calculate_checksum
    checksum stamp decode_order order_fields get_text get_bytes
read_back = refl

checkpoint_back :
    load_checkpoint (create_checkpoint 9 (bid ∷ bid ∷ []))
    ≡ some (some (pos 9, image_of bid ∷ image_of bid ∷ []))
unfolding load_checkpoint create_checkpoint le encode_order encode_image put_text get_le read_orders
    decode_order order_fields get_text get_bytes
checkpoint_back = refl

cancel_back : get_last_sequence 2 (write_cancel_order (pos 42) empty_log).1.log ≡ some (some 1)
unfolding get_last_sequence read_all read_entry read_field write_cancel_order write_log entry_bytes
    le finish_entry get_le is_valid calculate_checksum checksum stamp
cancel_back = refl

abbrev reopened : Option TradingLog → Option ℕ
reopened none = none
reopened (some w) = some w.sequence

-- After a torn entry the numbers start again.
torn_back :
    reopened (
      new_log 2
        (take 20 (write_cancel_order (pos 42) empty_log).1.log)
        empty_log.clock
        empty_log.disk)
    ≡ some 0
unfolding new_log get_last_sequence read_all read_entry read_field write_cancel_order write_log
    entry_bytes le finish_entry stamp
torn_back = refl
