-- ===== src/Asset/Wal/Codec.antt =====
-- The binary layout of an entry (`encodeEntry`, `decodeEntry` of pkg/asset/wal.go).
use little_cex.Prelude.{
  List, ℕ, zero, suc, ◌+◌, ◌*◌, ◌/◌, ◌%◌, ℤ, [], ◌∷◌, ◌++◌, Bytes, if◌then◌else◌, ltb, nat_beq,
  bits64, of_bits64, length, take, drop,
}

pub data EntryType : Type 0 where
  reserve release transfer add_balance deduct_balance checkpoint : EntryType
  -- the zero value, and any other byte
  unknown : ℕ → EntryType

abbrev pub entry_code : EntryType → ℕ
entry_code reserve = 1
entry_code release = 2
entry_code transfer = 3
entry_code add_balance = 4
entry_code deduct_balance = 5
entry_code checkpoint = 6
entry_code (unknown n) = n

-- `WALEntryType(b)`
abbrev pub entry_of_code : ℕ → EntryType
entry_of_code b =
    if nat_beq b 1
    then reserve
    else if nat_beq b 2
    then release
    else if nat_beq b 3
    then transfer
    else if nat_beq b 4
    then add_balance
    else if nat_beq b 5
    then deduct_balance
    else if nat_beq b 6
    then checkpoint
    else unknown b

pub record WalEntry : Type 0 where
  pub seq : ℕ
  pub type_ : EntryType
  pub timestamp : ℤ
  pub cmd_id : Bytes
  pub user_id : ℤ
  pub symbol : Bytes
  pub amount : ℤ
  pub to_user_id : ℤ
  pub to_symbol : Bytes
  pub to_amount : ℤ
  pub fee : ℤ
  pub fee_asset : Bytes

-- Little endian at `k` bytes; the higher bits are dropped.
unfoldable pub le : ℕ → ℕ → Bytes
le zero n = []
le (suc k) n = n % 256 ∷ le k (n / 256)

-- A text behind its length as a `uint16`.
unfoldable pub put_text : Bytes → Bytes
put_text s = le 2 (length s) ++ s

abbrev pub join : List Bytes → Bytes
join [] = []
join (s ∷ rest) = s ++ join rest

unfoldable pub encode_entry : WalEntry → Bytes
encode_entry e = join (
    le 8 e.seq
    ∷ (entry_code e.type_ % 256 ∷ [])
    ∷ le 8 (bits64 e.timestamp)
    ∷ put_text e.cmd_id
    ∷ le 8 (bits64 e.user_id)
    ∷ put_text e.symbol
    ∷ le 8 (bits64 e.amount)
    ∷ le 8 (bits64 e.to_user_id)
    ∷ put_text e.to_symbol
    ∷ le 8 (bits64 e.to_amount)
    ∷ le 8 (bits64 e.fee)
    ∷ put_text e.fee_asset
    ∷ [])

-- Reading goes on at `data[offset:]`; an index past the end panics.
pub data Read {ℓ} (A : Type ℓ) : Type ℓ where
  ok : A → Read A
  too_short : Read A
  panic : Read A

abbrev pub Reader : Type 0 → Type 0
Reader A = Bytes → Read (A × Bytes)

infixl 5 ◌>>=◌ ◌>>◌
abbrev pub ◌>>=◌ : {A B : Type 0} → Reader A → (A → Reader B) → Reader B
◌>>=◌ m f bs = elim (m bs) [ ok (a, rest) ↦ f a rest | too_short ↦ too_short | panic ↦ panic ]

abbrev pub ◌>>◌ : {A B : Type 0} → Reader A → Reader B → Reader B
m >> k = m >>= λ _. k

unfoldable pub get_le : ℕ → Bytes → Read (ℕ × Bytes)
get_le zero bs = ok (0, bs)
get_le (suc k) [] = panic
get_le (suc k) (b ∷ bs) = elim (get_le k bs) [
  | ok (n, rest) ↦ ok (b + 256 * n, rest)
  | too_short ↦ too_short
  | panic ↦ panic
]

abbrev pub get_i64 : Reader ℤ
get_i64 bs = elim (get_le 8 bs) [
  | ok (n, rest) ↦ ok (of_bits64 n, rest)
  | too_short ↦ too_short
  | panic ↦ panic
]

-- `data[offset : offset+n]`
unfoldable pub get_bytes : ℕ → Bytes → Read (Bytes × Bytes)
get_bytes n bs = if ltb (length bs) n then panic else ok (take n bs, drop n bs)

unfoldable pub get_text : Bytes → Read (Bytes × Bytes)
get_text = do n ← get_le 2; get_bytes n

abbrev pub pure : {A : Type 0} → A → Reader A
pure a bs = ok (a, bs)

unfoldable pub fields : Reader WalEntry
fields = do
  seq ← get_le 8
  code ← get_le 1
  timestamp ← get_i64
  cmd_id ← get_text
  user_id ← get_i64
  symbol ← get_text
  amount ← get_i64
  to_user_id ← get_i64
  to_symbol ← get_text
  to_amount ← get_i64
  fee ← get_i64
  fee_asset ← get_text
  pure (record {
    seq = seq;
    type_ = entry_of_code code;
    timestamp = timestamp;
    cmd_id = cmd_id;
    user_id = user_id;
    symbol = symbol;
    amount = amount;
    to_user_id = to_user_id;
    to_symbol = to_symbol;
    to_amount = to_amount;
    fee = fee;
    fee_asset = fee_asset;
  })

-- Bytes behind the last field are ignored.
unfoldable pub decode_entry : Bytes → Read WalEntry
decode_entry bs =
    if ltb (length bs) 17
    then too_short
    else elim (fields bs) [ ok (e, _) ↦ ok e | too_short ↦ too_short | panic ↦ panic ]
