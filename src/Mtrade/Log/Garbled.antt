-- ===== src/Mtrade/Log/Garbled.antt =====
-- What the log keeps of an order: the checksum is computed over a stamp that is put where the order's
-- bytes begin (WriteOrder and calculateChecksum of pkg/mtrade/wal.go).
use little_cex.Prelude.{
  bits64, of_bits64, ℕ, zero, suc, ◌+◌, ◌*◌, ◌/◌, ◌%◌, ◌^◌, ◌≤◌, ◌<◌, ◌≡◌, ◌∙◌, refl, sym, ap, ap₂,
  ℤ, true, false, Option, none, [], ◌∷◌, ◌++◌, Bytes, if◌then◌else◌, ltb, arith, IsI64, length,
  take, drop, nat_beq_iff, length-append, take-append, int_eq, nat_eq, bytes_eq, pair_eq,
}
use mathlib.Core.List.{append_assoc}
use little_cex.Asset.Wal.{le, ok}
use little_cex.Asset.Wal.RoundTrip.{length-le, length-put_text, bits64-lt}
use little_cex.Asset.Wal.Replay.{checksum-lt}
use little_cex.Mtrade.Order.{Order}
use little_cex.Mtrade.Log.{
  Image, reached, image_of, encode_image, encode_order, decode_order, LogEntry, TradingLog,
  entry_bytes, stamp, stamped, zeros, fill_buffer, finish_entry, write_order, write_log, is_valid,
  calculate_checksum, read_entry, found, in_buffer,
}
use little_cex.Mtrade.Log.Frames.{
  IsStorable, decode_order-encode_image, IsWritable, read_entry-entry_bytes,
}

bits64-of_bits64 : (n : ℕ) → n < 2 ^ 64 → bits64 (of_bits64 n) ≡ n
bits64-of_bits64 n h = ground arith

of_bits64-IsI64 : (n : ℕ) → n < 2 ^ 64 → IsI64 (of_bits64 n)
of_bits64-IsI64 n h = ground arith

-- The order that is read back: the sequence number is its identifier, the time its user, and the type of
-- the entry the lowest byte of its price.
abbrev pub garbled : ℕ → ℤ → Image → Image
garbled sequence time o = record o {
  id = of_bits64 sequence;
  user_id = time;
  price = of_bits64 (1 + 256 * (bits64 o.price / 256));
}

low_byte : (q : ℕ) → le 8 (1 + 256 * q) ≡ 1 ∷ le 7 q
unfolding le
low_byte q = ap₂ (λ (b r : ℕ). b ∷ le 7 r) (omega arith) (omega arith)

price_fits : (z : ℤ) → 1 + 256 * (bits64 z / 256) < 2 ^ 64
price_fits z = omega (arith, bits64-lt z)

over_front :
    (sequence : ℕ) (time : ℤ) (a b c : ℕ) (rest : Bytes)
    → stamp sequence time 1 ++ drop 17 (le 8 a ++ (le 8 b ++ (le 8 c ++ rest)))
      ≡ le 8 sequence ++ (le 8 (bits64 time) ++ ((1 ∷ le 7 (c / 256)) ++ rest))
unfolding stamp le
over_front sequence time a b c rest = refl

stamped_order :
    (sequence : ℕ) (time : ℤ) (o : Image)
    → sequence < 2 ^ 64
    → stamp sequence time 1 ++ drop 17 (encode_image o) ≡ encode_image (garbled sequence time o)
unfolding encode_image
stamped_order sequence time o h =
    rw
      (
        over_front sequence time (bits64 o.id) (bits64 o.user_id) (bits64 o.price) _,
        bits64-of_bits64 sequence h,
        bits64-of_bits64 (1 + 256 * (bits64 o.price / 256)) (price_fits o.price),
        low_byte (bits64 o.price / 256),
      )
      refl

length-encode_image : (o : Image) → length (encode_image o) ≡ 53 + length o.symbol
unfolding encode_image
length-encode_image o = simp (length-append, length-le, length-put_text) (omega arith)

drop_within : (n : ℕ) (xs ys : Bytes) → n ≤ length xs → drop n (xs ++ ys) ≡ drop n xs ++ ys
drop_within zero xs ys h = refl
drop_within (suc n) [] ys h = absurd (omega arith)
drop_within (suc n) (x ∷ xs) ys h = drop_within n xs ys (omega arith)

length-stamp : (sequence : ℕ) (time : ℤ) (code : ℕ) → length (stamp sequence time code) ≡ 17
unfolding stamp
length-stamp sequence time code = simp (length-append, length-le) (omega arith)

stamped_long :
    (sequence : ℕ) (time : ℤ) (code : ℕ) (bs rest : Bytes)
    → 17 ≤ length bs
    → stamped sequence time code (bs ++ rest) ≡ (stamp sequence time code ++ drop 17 bs) ++ rest
unfolding stamped
stamped_long sequence time code bs rest h =
    let enough : ltb (length (bs ++ rest)) 17 ≡ false = ground (arith, length-append bs rest) in
    rw (enough, drop_within 17 bs rest h)
      (sym (append_assoc (stamp sequence time code) (drop 17 bs) rest))

length-drop : (n : ℕ) (xs : Bytes) → n ≤ length xs → n + length (drop n xs) ≡ length xs
length-drop zero xs h = omega arith
length-drop (suc n) [] h = absurd (omega arith)
length-drop (suc n) (x ∷ xs) h = omega (arith, length-drop n xs (omega arith))

-- What is left of the bytes in the buffer once it was stamped.
kept_bytes :
    (sequence : ℕ) (time : ℤ) (code : ℕ) (bs buf : Bytes)
    → 17 ≤ length bs
    → take (length bs) (stamped sequence time code (fill_buffer bs buf))
      ≡ stamp sequence time code ++ drop 17 bs
unfolding fill_buffer
kept_bytes sequence time code bs buf h = rw (stamped_long sequence time code bs _ h) (
    ap (λ (m : ℕ). take m ((stamp sequence time code ++ drop 17 bs) ++ rest)) (sym same_length)
    ∙ take-append (stamp sequence time code ++ drop 17 bs) rest)
  where
    rest : Bytes
    rest = drop (length bs) (if ltb (length buf) (length bs) then zeros (length bs * 2) else buf)

    same_length : length (stamp sequence time code ++ drop 17 bs) ≡ length bs
    same_length = omega (
      arith,
      h,
      length-append (stamp sequence time code) (drop 17 bs),
      length-stamp sequence time code,
      length-drop 17 bs h,
    )

garbled-IsStorable :
    (sequence : ℕ) (time : ℤ) (o : Image)
    → sequence < 2 ^ 64
    → IsI64 time
    → IsStorable o
    → IsStorable (garbled sequence time o)
garbled-IsStorable sequence time o h g s = record {
  id_fits = of_bits64-IsI64 sequence h;
  user_id_fits = g;
  price_fits = of_bits64-IsI64 (1 + 256 * (bits64 o.price / 256)) (price_fits o.price);
  qty_fits = s.qty_fits;
  filled_qty_fits = s.filled_qty_fits;
  created_at_fits = s.created_at_fits;
  symbol_fits = s.symbol_fits;
}

-- The entry that reading the log finds for a written order.
pub record IsGarbled (o : Order) (w after : TradingLog) (e : LogEntry) : Type 0 where
  pub appended : after.log ≡ w.log ++ entry_bytes e
  pub readable : (rest : Bytes) → read_entry (entry_bytes e ++ rest) ≡ found e rest
  pub accepted : is_valid e ≡ true
  pub decoded :
      decode_order e.data_ ≡ ok (garbled ((w.sequence + 1) % 2 ^ 64) (w.clock 0) (image_of o))

written : Order → TradingLog → LogEntry
written o w =
    (finish_entry ((w.sequence + 1) % 2 ^ 64) (w.clock 0) 1 (in_buffer (length (encode_order o)))
      (fill_buffer (encode_order o) w.buf)).0

written_data :
    (o : Order) (w : TradingLog)
    → (written o w).data_
      ≡ encode_image (garbled ((w.sequence + 1) % 2 ^ 64) (w.clock 0) (image_of o))
unfolding finish_entry encode_order written
written_data o w =
    kept_bytes ((w.sequence + 1) % 2 ^ 64) (w.clock 0) 1 (encode_image (image_of o)) w.buf
      (omega (arith, length-encode_image (image_of o)))
    ∙ stamped_order ((w.sequence + 1) % 2 ^ 64) (w.clock 0) (image_of o) (omega arith)

written-IsWritable :
    (o : Order) (w : TradingLog)
    → IsStorable (image_of o)
    → IsI64 (w.clock 0)
    → IsWritable (written o w)
unfolding finish_entry calculate_checksum written
written-IsWritable o w s t = record {
  sequence_fits = omega arith;
  timestamp_fits = t;
  type_fits = omega arith;
  data_fits = omega (
    arith,
    ap length (written_data o w),
    length-encode_image (garbled ((w.sequence + 1) % 2 ^ 64) (w.clock 0) (image_of o)),
    s.symbol_fits,
  );
  checksum_fits = checksum-lt _;
}

-- Writing an order that the layout holds, where the disk does not fail: the log grows by an entry that
-- is read back and whose checksum is right, and the order decoded from it has the sequence number
-- for its identifier, the time for its user and 1 for the lowest byte of its price.
pub write_order-IsGarbled :
    (o : Order) (w : TradingLog)
    → IsStorable (image_of o)
    → IsI64 (w.clock 0)
    → w.disk 0 ≡ none
    → (e : LogEntry) × IsGarbled o w (write_order o w).1 e
unfolding write_order write_log written finish_entry is_valid
write_order-IsGarbled o w s t works = (
  written o w,
  record {
    appended = ap (λ (d : Option Bytes). w.log ++ reached d (entry_bytes (written o w))) works;
    readable = λ rest. read_entry-entry_bytes (written o w) rest (written-IsWritable o w s t);
    accepted = (nat_beq_iff _ _).1 refl;
    decoded =
        ap decode_order (written_data o w)
        ∙ decode_order-encode_image _
            (garbled-IsStorable _ (w.clock 0) (image_of o) (omega arith) t s);
  },
)
