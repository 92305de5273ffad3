-- ===== src/Asset/Wal/Log.antt =====
-- The frames of the log: `Write`, `Recover` and the checkpoint files (pkg/asset/wal.go).
use Prim.Native.Nat.{bit_xor}
use little_cex.Prelude.{
  ℕ, zero, suc, ◌+◌, ◌/◌, ◌%◌, ◌^◌, ℤ, pos, Bool, true, false, Option, none, some, [], ◌∷◌, ◌++◌,
  Bytes, if◌then◌else◌, ltb, nat_beq, eqb_ℤ, length, take, drop,
}
use little_cex.Asset.Wal.Codec.{
  WalEntry, le, encode_entry, ok, too_short, panic, get_le, decode_entry,
}

-- `crc32.ChecksumIEEE`: the reflected polynomial 0xedb88320, bit by bit.
crc_bits : ℕ → ℕ → ℕ
crc_bits zero x = x
crc_bits (suc k) x = crc_bits k (if nat_beq (x % 2) 1 then bit_xor (x / 2) 0xedb88320 else x / 2)

crc_bytes : ℕ → Bytes → ℕ
unfolding crc_bits
crc_bytes c [] = c
crc_bytes c (b ∷ bs) = crc_bytes (crc_bits 8 (bit_xor c b)) bs

unfoldable pub checksum : Bytes → ℕ
unfolding crc_bytes
checksum bs = bit_xor (crc_bytes 0xffffffff bs) 0xffffffff % 2 ^ 32

-- `[length 4B][data][crc 4B]`
unfoldable pub frame : Bytes → Bytes
frame payload = le 4 (length payload) ++ (payload ++ le 4 (checksum payload))

-- `disk` and `clock` are what the writer and the clock will answer, first answer first: of a
-- write, `none` if it succeeds, and else the bytes that reached the log before it failed.
pub record Wal : Type 0 where
  pub seq : ℕ
  pub log : Bytes
  pub snapshot_file : Option Bytes
  pub meta_file : Option ℕ
  pub disk : ℕ → Option Bytes

abbrev pub rest_of : {A : Type 0} → (ℕ → A) → ℕ → A
rest_of answers n = answers (suc n)

abbrev pub logged : Bytes → Bytes → Option Bytes → Bytes
logged log data_ none = log ++ data_
logged log data_ (some torn) = log ++ torn

abbrev pub succeeded : Option Bytes → Bool
succeeded none = true
succeeded (some _) = false

-- The entry as `Write` completes it.
unfoldable pub numbered : ℤ → WalEntry → Wal → WalEntry
numbered now e w = record e {
  seq = (w.seq + 1) % 2 ^ 64;
  timestamp = if eqb_ℤ e.timestamp (pos 0) then now else e.timestamp;
}

-- `Write`: whether it succeeded, and the log after it.
unfoldable pub write : ℤ → WalEntry → Wal → Bool × Wal
write now e w = (
  succeeded (w.disk 0),
  record w {
    seq = (w.seq + 1) % 2 ^ 64;
    log = logged w.log (frame (encode_entry (numbered now e w))) (w.disk 0);
    disk = rest_of w.disk;
  },
)

-- `Checkpoint`, where the file system does not fail: the log is emptied, `seq` goes on.
unfoldable pub checkpoint_to : Bytes → ℕ → Wal → Wal
checkpoint_to state up_to w = record w {
  snapshot_file = some state;
  meta_file = some up_to;
  log = [];
}

-- `LoadSnapshot`: the state and its sequence number; `none` is a state file that is missing
-- beside a meta file, the error of `os.ReadFile`.
unfoldable pub load_snapshot : Wal → Option (Option Bytes × ℕ)
load_snapshot w = elim w.meta_file [
  | none ↦ some (none, 0)
  | some seq ↦ elim w.snapshot_file [ none ↦ none | some state ↦ some (some state, seq) ]
]

pub data FrameError : Type 0 where
  read_length read_data read_crc crc_mismatch data_too_short : FrameError

pub data Frame : Type 0 where
  end : Frame
  bad : FrameError → Frame
  broken : Frame
  entry : WalEntry → Bytes → Frame

abbrev pub check_payload : Bytes → ℕ → Bytes → Frame
check_payload payload crc rest =
    if nat_beq (checksum payload) crc
    then elim (decode_entry payload) [
      | ok e ↦ entry e rest
      | too_short ↦ bad data_too_short
      | panic ↦ broken
    ]
    else bad crc_mismatch

abbrev pub read_payload : ℕ → Bytes → Frame
read_payload n bs = if ltb (length bs) n then bad read_data else elim (get_le 4 (drop n bs)) [
  | ok (crc, rest) ↦ check_payload (take n bs) crc rest
  | _ ↦ bad read_crc
]

abbrev pub is_empty : Bytes → Bool
is_empty [] = true
is_empty (_ ∷ _) = false

-- One round of the loop of `Recover` up to the decoded entry.
unfoldable pub read_frame : Bytes → Frame
read_frame bs =
    if is_empty bs
    then end
    else elim (get_le 4 bs) [ ok (n, rest) ↦ read_payload n rest | _ ↦ bad read_length ]

-- What the callback of `Recover` answers.
pub data Applied (E : Type 0) : Type 0 where
  applied : Applied E
  refused : E → Applied E
  panicked : Applied E

pub data Recovered (E : Type 0) : Type 0 where
  finished : ℕ → Recovered E
  unreadable : ℕ → FrameError → Recovered E
  apply_failed : ℕ → E → Recovered E
  crashed : Recovered E
  out_of_fuel : Recovered E

module _ {S E : Type 0} (apply : WalEntry → S → Applied E × S) where
  -- The loop of `Recover`, with the last sequence number read so far.
  unfoldable pub recover_loop : ℕ → Bytes → ℕ → S → Recovered E × S
  recover_loop zero bs last s = (out_of_fuel, s)
  recover_loop (suc fuel) bs last s = elim (read_frame bs) [
    | end ↦ (finished last, s)
    | bad e ↦ (unreadable last e, s)
    | broken ↦ (crashed, s)
    | entry e rest ↦
        let (a, s') = apply e s in
        elim a [
          | applied ↦ recover_loop fuel rest e.seq s'
          | refused err ↦ (apply_failed last err, s')
          | panicked ↦ (crashed, s')
        ]
  ]

  -- A frame has eight bytes at least, so the log's length bounds the rounds.
  unfoldable pub recover : Bytes → S → Recovered E × S
  recover log s = recover_loop (suc (length log)) log 0 s

-- `Recover` sets the log's sequence number when it gets through.
unfoldable pub after_recover : {E : Type 0} → Recovered E → Wal → Wal
after_recover (finished last) w = record w { seq = last }
after_recover _ w = w
