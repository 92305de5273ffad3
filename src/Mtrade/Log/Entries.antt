-- ===== src/Mtrade/Log/Entries.antt =====
-- The entries of the log and writing them (pkg/mtrade/wal.go).
use little_cex.Prelude.{
  ℕ, zero, suc, ◌+◌, ◌*◌, ◌%◌, ◌^◌, ℤ, Option, none, some, [], ◌∷◌, ◌++◌, Bytes, if◌then◌else◌, ltb,
  length, take, drop, bits64, int_eq, nat_eq, bytes_eq, pair_eq,
}
use little_cex.Asset.Wal.{le, join}
use little_cex.Asset.Wal.{checksum}
use little_cex.Mtrade.Order.{Order}
use little_cex.Mtrade.Log.Layout.{encode_order}

pub data LogEntryType : Type 0 where
  place_order cancel_order checkpoint : LogEntryType

abbrev pub log_code : LogEntryType → ℕ
log_code place_order = 1
log_code cancel_order = 2
log_code checkpoint = 3

-- `WALEntry`
pub record LogEntry : Type 0 where
  pub sequence : ℕ
  pub timestamp : ℤ
  pub type_ : ℕ
  pub data_ : Bytes
  pub checksum_ : ℕ

-- The data of an entry: the first bytes of the buffer, or bytes of its own.
pub data Source : Type 0 where
  in_buffer : ℕ → Source
  separate : Bytes → Source

abbrev pub content : Source → Bytes → Bytes
content (in_buffer n) buf = take n buf
content (separate bs) buf = bs

-- `disk` says of each entry to come whether writing it succeeds: `none`, or the bytes that reached the
-- file before it failed.
pub record TradingLog : Type 0 where
  pub sequence : ℕ
  pub log : Bytes
  pub buf : Bytes
  pub clock : ℕ → ℤ
  pub disk : ℕ → Option Bytes

abbrev pub zeros : ℕ → Bytes
zeros zero = []
zeros (suc n) = 0 ∷ zeros n

-- The first 17 bytes: the sequence number, the time and the type.
unfoldable pub stamp : ℕ → ℤ → ℕ → Bytes
stamp sequence timestamp code = le 8 sequence ++ (le 8 (bits64 timestamp) ++ (code % 256 ∷ []))

-- The buffer after `calculateChecksum`, which is at least 17 bytes long.
unfoldable pub stamped : ℕ → ℤ → ℕ → Bytes → Bytes
stamped sequence timestamp code buf =
    stamp sequence timestamp code ++ drop 17 (if ltb (length buf) 17 then zeros 256 else buf)

-- The checksum of an entry whose data no longer is in the buffer.
unfoldable pub calculate_checksum : ℕ → ℤ → ℕ → Bytes → ℕ
calculate_checksum sequence timestamp code data_ = checksum (stamp sequence timestamp code ++ data_)

-- The entry that is written, and the buffer it leaves: the data is read after the buffer was stamped.
unfoldable pub finish_entry : ℕ → ℤ → ℕ → Source → Bytes → LogEntry × Bytes
finish_entry sequence timestamp code source buf =
    let buf' = stamped sequence timestamp code buf in
    (
      record {
        sequence = sequence;
        timestamp = timestamp;
        type_ = code;
        data_ = content source buf';
        checksum_ = calculate_checksum sequence timestamp code (content source buf');
      },
      buf',
    )

unfoldable pub entry_bytes : LogEntry → Bytes
entry_bytes e = join (
    le 8 e.sequence
    ∷ le 8 (bits64 e.timestamp)
    ∷ (e.type_ % 256 ∷ [])
    ∷ le 4 (length e.data_)
    ∷ e.data_
    ∷ le 4 e.checksum_
    ∷ [])

abbrev pub reached : Option Bytes → Bytes → Bytes
reached none bs = bs
reached (some torn) bs = torn

abbrev answer_of : Option Bytes → ℕ → Option ℕ
answer_of none n = some n
answer_of (some _) n = none

-- `write` in the mode SyncModeAlways, with the flush that follows it: the number of the entry, or an
-- error. Sequence numbers are kept as their 64 bits.
unfoldable pub write_log : ℕ → Source → TradingLog → Option ℕ × TradingLog
write_log code source w =
    let sequence = (w.sequence + 1) % 2 ^ 64 in
    let (e, buf) = finish_entry sequence (w.clock 0) code source w.buf in
    (
      answer_of (w.disk 0) sequence,
      record {
        sequence = sequence;
        log = w.log ++ reached (w.disk 0) (entry_bytes e);
        buf = buf;
        clock = λ n. w.clock (n + 1);
        disk = λ n. w.disk (n + 1);
      },
    )

-- The buffer with the bytes of an order at its start, grown where it is too small.
unfoldable pub fill_buffer : Bytes → Bytes → Bytes
fill_buffer bs buf =
    bs ++ drop (length bs) (if ltb (length buf) (length bs) then zeros (length bs * 2) else buf)

unfoldable pub write_order : Order → TradingLog → Option ℕ × TradingLog
write_order o w =
    write_log (log_code place_order) (in_buffer (length (encode_order o)))
      (record w { buf = fill_buffer (encode_order o) w.buf })

unfoldable pub write_cancel_order : ℤ → TradingLog → Option ℕ × TradingLog
write_cancel_order id w = write_log (log_code cancel_order) (separate (le 8 (bits64 id))) w

unfoldable pub write_checkpoint : Bytes → TradingLog → Option ℕ × TradingLog
write_checkpoint data_ w = write_log (log_code checkpoint) (separate data_) w
