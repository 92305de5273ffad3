-- ===== src/Mtrade/Log/Frames.antt =====
-- Reading back what was written: the orders and the entries of the log (pkg/mtrade/wal.go).
use little_cex.Prelude.{
  bits64, ℕ, ◌%◌, ◌^◌, ◌<◌, ◌≡◌, ◌∙◌, refl, sym, ap, ap₂, false, [], ◌∷◌, ◌++◌, Bytes, ltb, arith,
  IsI64, length, take, drop, length-append, take-append, drop-append, int_eq, nat_eq, bytes_eq,
  pair_eq,
}
use mathlib.Core.List.{append-nil, append_assoc}
use little_cex.Asset.Wal.{le, ok, get_le, ◌>>=◌}
use little_cex.Asset.Wal.RoundTrip.{
  length-le, get_le-le, get_i64-le, get_text-put_text, get_le-byte, bits64-lt, of_bits64-bits64,
}
use little_cex.Mtrade.Log.{
  Image, encode_image, order_fields, decode_order, LogEntry, entry_bytes, read_entry, read_field,
  found, Found, number,
}

-- The orders that the layout can hold.
pub record IsStorable (o : Image) : Type 0 where
  pub id_fits : IsI64 o.id
  pub user_id_fits : IsI64 o.user_id
  pub price_fits : IsI64 o.price
  pub qty_fits : IsI64 o.qty
  pub filled_qty_fits : IsI64 o.filled_qty
  pub created_at_fits : IsI64 o.created_at
  pub symbol_fits : length o.symbol < 65536

order_fields-encode_image : (o : Image) → IsStorable o → order_fields (encode_image o) ≡ ok (o, [])
unfolding order_fields encode_image
order_fields-encode_image o h =
    rw
      (
        get_i64-le o.id _ h.id_fits,
        get_i64-le o.user_id _ h.user_id_fits,
        get_i64-le o.price _ h.price_fits,
        get_i64-le o.qty _ h.qty_fits,
        get_i64-le o.filled_qty _ h.filled_qty_fits,
        get_i64-le o.created_at _ h.created_at_fits,
        get_le-byte o.side _,
        get_le-byte o.type_ _,
        get_le-byte o.status _,
        get_text-put_text o.symbol _ h.symbol_fits,
        order_fields,
        ◌>>=◌,
      )
      refl

pub decode_order-encode_image : (o : Image) → IsStorable o → decode_order (encode_image o) ≡ ok o
unfolding decode_order
decode_order-encode_image o h = rw (order_fields-encode_image o h, decode_order) refl

number-le : (k n : ℕ) → n < 256 ^ k → number k (le k n) ≡ n
number-le k n h = rw (ap (get_le k) (sym (append-nil (le k n))) ∙ get_le-le k n [] h, number) refl

read_field-append :
    (n : ℕ) (xs rest : Bytes) (next : Bytes → Bytes → Found)
    → length xs ≡ n
    → read_field n (xs ++ rest) next ≡ next xs rest
unfolding read_field
read_field-append n xs rest next e =
    let enough : ltb (length (xs ++ rest)) n ≡ false = ground (arith, length-append xs rest) in
    rw (enough) (
      ap₂ next (ap (λ (m : ℕ). take m (xs ++ rest)) (sym e) ∙ take-append xs rest)
        (ap (λ (m : ℕ). drop m (xs ++ rest)) (sym e) ∙ drop-append xs rest))

read_field-byte :
    (b : ℕ) (rest : Bytes) (next : Bytes → Bytes → Found)
    → read_field 1 (b ∷ rest) next ≡ next (b ∷ []) rest
read_field-byte b rest next = read_field-append 1 (b ∷ []) rest next refl

number_byte : (e : LogEntry) → e.type_ < 256 → number 1 (e.type_ % 256 ∷ []) ≡ e.type_
unfolding get_le
number_byte e h = omega arith

-- The entries whose numbers are in range.
pub record IsWritable (e : LogEntry) : Type 0 where
  pub sequence_fits : e.sequence < 2 ^ 64
  pub timestamp_fits : IsI64 e.timestamp
  pub type_fits : e.type_ < 256
  pub data_fits : length e.data_ < 2 ^ 32
  pub checksum_fits : e.checksum_ < 2 ^ 32

pub read_entry-entry_bytes :
    (e : LogEntry) (rest : Bytes) → IsWritable e → read_entry (entry_bytes e ++ rest) ≡ found e rest
unfolding read_entry entry_bytes
read_entry-entry_bytes e rest h =
    rw
      (
        append_assoc (le 8 e.sequence) _ rest,
        append_assoc (le 8 (bits64 e.timestamp)) _ rest,
        append_assoc (le 4 (length e.data_)) _ rest,
        append_assoc e.data_ _ rest,
        append_assoc (le 4 e.checksum_) [] rest,
        read_field-append 8 (le 8 e.sequence) _ _ (length-le 8 e.sequence),
        read_field-append 8 (le 8 (bits64 e.timestamp)) _ _ (length-le 8 (bits64 e.timestamp)),
        read_field-byte,
        read_field-append 4 (le 4 (length e.data_)) _ _ (length-le 4 (length e.data_)),
        number-le 4 (length e.data_) h.data_fits,
        read_field-append (length e.data_) e.data_ _ _ refl,
        read_field-append 4 (le 4 e.checksum_) _ _ (length-le 4 e.checksum_),
        number-le 8 e.sequence h.sequence_fits,
        number-le 8 (bits64 e.timestamp) (bits64-lt e.timestamp),
        of_bits64-bits64 e.timestamp h.timestamp_fits,
        number-le 4 e.checksum_ h.checksum_fits,
        number_byte e h.type_fits,
        read_entry,
      )
      refl
