-- ===== src/Mtrade/Log/Reading.antt =====
-- Reading the log back, and checkpoints (pkg/mtrade/wal.go).
use little_cex.Prelude.{
  ℕ, zero, suc, ◌+◌, ◌^◌, ℤ, Bool, true, false, Option, none, some, List, [], ◌∷◌, ◌++◌, Bytes,
  if◌then◌else◌, ltb, length, take, drop, nat_beq, of_bits64, int_eq, nat_eq, bytes_eq, pair_eq,
}
use little_cex.Asset.Wal.{le, ok, too_short, panic, get_le}
use little_cex.Mtrade.Order.{Order}
use little_cex.Mtrade.Log.Layout.{Image, encode_order, decode_order}
use little_cex.Mtrade.Log.Entries.{LogEntry, TradingLog, calculate_checksum, zeros}

-- What `readEntry` finds: an entry, `io.EOF`, or another error, which a torn field is.
pub data Found : Type 0 where
  found : LogEntry → Bytes → Found
  at_end failed : Found

-- `binary.Read` and `io.ReadFull`: the end of the file where nothing is left.
unfoldable pub read_field : ℕ → Bytes → (Bytes → Bytes → Found) → Found
read_field n bs next =
    if ltb (length bs) n
    then if nat_beq (length bs) 0 then at_end else failed
    else next (take n bs) (drop n bs)

abbrev pub number : ℕ → Bytes → ℕ
number n bs = elim (get_le n bs) [ ok (k, _) ↦ k | too_short ↦ 0 | panic ↦ 0 ]

unfoldable pub read_entry : Bytes → Found
read_entry bs = read_field 8 bs (λ seq bs1. read_field 8 bs1 (λ time bs2.
    read_field 1 bs2 (λ code bs3. read_field 4 bs3 (λ len bs4.
      read_field (number 4 len) bs4 (λ data_ bs5. read_field 4 bs5 (λ crc rest.
        found
          (record {
            sequence = number 8 seq;
            timestamp = of_bits64 (number 8 time);
            type_ = number 1 code;
            data_ = data_;
            checksum_ = number 4 crc;
          })
          rest))))))

unfoldable pub is_valid : LogEntry → Bool
is_valid e = nat_beq e.checksum_ (calculate_checksum e.sequence e.timestamp e.type_ e.data_)

-- `ReadAll`: the entries, and whether there was no error; the outer `none` is fuel that ran out.
unfoldable pub read_all : ℕ → Bytes → Option (List LogEntry × Bool)
read_all zero bs = none
read_all (suc fuel) bs = elim (read_entry bs) [
  | at_end ↦ some ([], true)
  | failed ↦ some ([], false)
  | found e rest ↦
      let later = read_all fuel rest in
      if is_valid e
      then elim later [ none ↦ none | some (entries, fine) ↦ some (e ∷ entries, fine) ]
      else some ([], false)
]

abbrev last_sequence : List LogEntry → ℕ
last_sequence [] = 0
last_sequence (e ∷ []) = e.sequence
last_sequence (_ ∷ e ∷ entries) = last_sequence (e ∷ entries)

-- `none` is an error.
unfoldable pub get_last_sequence : ℕ → Bytes → Option (Option ℕ)
get_last_sequence fuel bs = elim (read_all fuel bs) [
  | none ↦ none
  | some (entries, fine) ↦ some (if fine then some (last_sequence entries) else none)
]

-- `NewWAL`, on the bytes of the file that is there: an error of reading them counts as 0.
unfoldable pub new_log : ℕ → Bytes → (ℕ → ℤ) → (ℕ → Option Bytes) → Option TradingLog
new_log fuel bs clock disk = elim (get_last_sequence fuel bs) [
  | none ↦ none
  | some last ↦ some (record {
    sequence = elim last [ none ↦ 0 | some n ↦ n ];
    log = bs;
    buf = zeros 256;
    clock = clock;
    disk = disk;
  })
]

-- `Truncate`, where the file system does not fail: the sequence goes on.
unfoldable pub truncate : TradingLog → TradingLog
truncate w = record w { log = [] }

abbrev pub encode_orders : List Order → Bytes
encode_orders [] = []
encode_orders (o ∷ orders) = encode_order o ++ encode_orders orders

-- The contents of a checkpoint file.
unfoldable pub create_checkpoint : ℕ → List Order → Bytes
create_checkpoint seq orders =
    le 4 0x43505431 ++ (1 ∷ le 8 seq ++ (le 8 (length orders) ++ encode_orders orders))

-- The orders of a checkpoint file: `none` is an error of a file that ends too early.
unfoldable pub read_orders : ℕ → Bytes → Option (List Image)
read_orders zero bs = some []
read_orders (suc n) bs =
    let later = read_orders n (drop (53 + number 2 (drop 51 bs)) bs) in
    if ltb (length bs) 53
    then none
    else if ltb (length (drop 53 bs)) (number 2 (drop 51 bs))
    then none
    else elim (decode_order (take (53 + number 2 (drop 51 bs)) bs)) [
      | ok o ↦ elim later [ none ↦ none | some orders ↦ some (o ∷ orders) ]
      | too_short ↦ none
      | panic ↦ none
    ]

-- `LoadCheckpoint` from the header on. The outer `none` is a panic, on a negative number of orders,
-- and the inner one an error. That the memory holds that many is taken for granted.
unfoldable pub load_checkpoint : Bytes → Option (Option (ℤ × List Image))
load_checkpoint bs =
    if ltb (length bs) 21
    then some none
    else if nat_beq (number 4 bs) 0x43505431
    then if ltb (number 8 (drop 13 bs)) (2 ^ 63)
      then some (elim (read_orders (number 8 (drop 13 bs)) (drop 21 bs)) [
        | none ↦ none
        | some orders ↦ some (of_bits64 (number 8 (drop 5 bs)), orders)
      ])
      else none
    else some none
