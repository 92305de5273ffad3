-- ===== src/Asset/Wal/RoundTrip.antt =====
-- Decoding an encoded entry, and recovering a log of whole frames.
use native.Mathlib.Nat.{pow-suc}
use mathlib.Core.List.{append_assoc}
use little_cex.Prelude.{
  ℕ, zero, suc, ◌+◌, ◌/◌, ◌%◌, ◌^◌, ◌<◌, ℤ, pos, negsuc, ◌≡◌, refl, ap, [], ◌∷◌, ◌++◌, Bytes,
  length, take-append, drop-append, length-append, bits64, of_bits64, IsI64, arith, ◌⊎◌,
}
use little_cex.Asset.Wal.Codec.{
  WalEntry, EntryType, entry_code, entry_of_code, le, put_text, encode_entry, ok, get_le, get_bytes,
  get_text, fields, decode_entry, unknown, reserve, release, transfer, add_balance, deduct_balance,
  checkpoint, get_i64, ◌>>=◌,
}

pub length-le : (k n : ℕ) → length (le k n) ≡ k
unfolding le
length-le zero n = refl
length-le (suc k) n = omega (arith, length-le k (n / 256))

pub get_le-le : (k n : ℕ) (rest : Bytes) → n < 256 ^ k → get_le k (le k n ++ rest) ≡ ok (n, rest)
unfolding le get_le
get_le-le zero n rest h = ground arith
get_le-le (suc k) n rest h =
    rw (get_le-le k (n / 256) rest (omega (arith, pow-suc 256 k))) (ground arith)

pub of_bits64-bits64 : (z : ℤ) → IsI64 z → of_bits64 (bits64 z) ≡ z
of_bits64-bits64 (pos n) h = ground arith
of_bits64-bits64 (negsuc n) h = ground arith

pub bits64-lt : (z : ℤ) → bits64 z < 2 ^ 64
bits64-lt (pos n) = omega arith
bits64-lt (negsuc n) = omega arith

pub get_text-put_text :
    (s rest : Bytes) → length s < 65536 → get_text (put_text s ++ rest) ≡ ok (s, rest)
unfolding get_text put_text get_bytes
get_text-put_text s rest h =
    rw (append_assoc (le 2 (length s)) s rest, get_le-le 2 (length s) (s ++ rest) h, ◌>>=◌)
      (ground (arith, length-append s rest, take-append s rest, drop-append s rest))

-- A type byte other than the six.
abbrev pub IsType : EntryType → Type 0
IsType (unknown n) = ((n ≡ 0) ⊎ (6 < n)) × (n < 256)
IsType _ = Unit {0}

entry_of_code-entry_code : (t : EntryType) → IsType t → (entry_of_code (entry_code t % 256) ≡ t)
entry_of_code-entry_code reserve h = refl
entry_of_code-entry_code (unknown n) h = ground arith
entry_of_code-entry_code release h = refl
entry_of_code-entry_code transfer h = refl
entry_of_code-entry_code add_balance h = refl
entry_of_code-entry_code deduct_balance h = refl
entry_of_code-entry_code checkpoint h = refl

-- The entries that the format can hold: numbers in range, texts below 64 KiB.
pub record IsEncodable (e : WalEntry) : Type 0 where
  pub seq_fits : e.seq < 2 ^ 64
  pub type_fits : IsType e.type_
  pub timestamp_fits : IsI64 e.timestamp
  pub cmd_id_fits : length e.cmd_id < 65536
  pub user_id_fits : IsI64 e.user_id
  pub symbol_fits : length e.symbol < 65536
  pub amount_fits : IsI64 e.amount
  pub to_user_id_fits : IsI64 e.to_user_id
  pub to_symbol_fits : length e.to_symbol < 65536
  pub to_amount_fits : IsI64 e.to_amount
  pub fee_fits : IsI64 e.fee
  pub fee_asset_fits : length e.fee_asset < 65536

pub get_i64-le : (z : ℤ) (rest : Bytes) → IsI64 z → get_i64 (le 8 (bits64 z) ++ rest) ≡ ok (z, rest)
get_i64-le z rest h =
    rw (get_le-le 8 (bits64 z) rest (bits64-lt z), get_i64) (ground (arith, of_bits64-bits64 z h))

pub get_le-byte : (b : ℕ) (rest : Bytes) → get_le 1 (b ∷ rest) ≡ ok (b, rest)
unfolding get_le
get_le-byte b rest = ap (λ (n : ℕ). ok (n, rest)) (omega arith)

fields-encode_entry : (e : WalEntry) → IsEncodable e → fields (encode_entry e) ≡ ok (e, [])
unfolding fields encode_entry
fields-encode_entry e h =
    rw
      (
        get_le-le 8 e.seq _ h.seq_fits,
        get_le-byte,
        get_i64-le e.timestamp _ h.timestamp_fits,
        get_text-put_text e.cmd_id _ h.cmd_id_fits,
        get_i64-le e.user_id _ h.user_id_fits,
        get_text-put_text e.symbol _ h.symbol_fits,
        get_i64-le e.amount _ h.amount_fits,
        get_i64-le e.to_user_id _ h.to_user_id_fits,
        get_text-put_text e.to_symbol _ h.to_symbol_fits,
        get_i64-le e.to_amount _ h.to_amount_fits,
        get_i64-le e.fee _ h.fee_fits,
        get_text-put_text e.fee_asset _ h.fee_asset_fits,
        fields,
        ◌>>=◌,
      )
      (ground (arith, entry_of_code-entry_code e.type_ h.type_fits))

pub length-put_text : (s : Bytes) → length (put_text s) ≡ 2 + length s
unfolding put_text
length-put_text s = omega (arith, length-append (le 2 (length s)) s, length-le 2 (length s))

-- An entry takes 65 bytes beside its four texts.
pub length-encode_entry :
    (e : WalEntry)
    → length (encode_entry e)
      ≡ 65 + length e.cmd_id + length e.symbol + length e.to_symbol + length e.fee_asset
unfolding encode_entry
length-encode_entry e = simp (length-append, length-le, length-put_text) (omega arith)

-- An entry that the format can hold is decoded from its encoding unchanged.
pub decode_entry-encode_entry :
    (e : WalEntry) → IsEncodable e → decode_entry (encode_entry e) ≡ ok e
unfolding decode_entry
decode_entry-encode_entry e h =
    rw (fields-encode_entry e h, decode_entry) (ground (arith, length-encode_entry e))
