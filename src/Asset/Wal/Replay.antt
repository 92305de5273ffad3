-- ===== src/Asset/Wal/Replay.antt =====
-- `Recover` over a log of whole frames hands the entries to the callback, in order.
use mathlib.Core.List.{append_assoc}
use little_cex.Prelude.{
  false, ltb, nat_beq_iff, ℕ, zero, suc, ◌+◌, ◌^◌, ◌≤◌, ◌<◌, ◌≡◌, refl, List, [], ◌∷◌, ◌++◌, Bytes,
  length, length-append, take-append, drop-append, arith,
}
use little_cex.Asset.Wal.Codec.{WalEntry, encode_entry, le}
use little_cex.Asset.Wal.Log.{
  check_payload, read_payload, is_empty, checksum, frame, end, entry, read_frame, Applied, applied,
  refused, panicked, Recovered, finished, apply_failed, crashed, recover_loop, recover,
}
use little_cex.Asset.Wal.RoundTrip.{
  IsEncodable, decode_entry-encode_entry, length-encode_entry, get_le-le, length-le,
}

pub checksum-lt : (bs : Bytes) → checksum bs < 2 ^ 32
unfolding checksum
checksum-lt bs = omega arith

length-frame : (bs : Bytes) → length (frame bs) ≡ 8 + length bs
unfolding frame
length-frame bs = simp (length-append, length-le) (omega arith)

-- The bytes that successful writes of these entries append.
abbrev pub frames : List WalEntry → Bytes
frames [] = []
frames (e ∷ es) = frame (encode_entry e) ++ frames es

abbrev pub AllEncodable : List WalEntry → Type 0
AllEncodable [] = Unit {0}
AllEncodable (e ∷ es) = IsEncodable e × AllEncodable es

is_empty-le : (k n : ℕ) (rest : Bytes) → is_empty (le (suc k) n ++ rest) ≡ false
unfolding le
is_empty-le k n rest = refl

ltb-append : (p t : Bytes) → ltb (length (p ++ t)) (length p) ≡ false
ltb-append p t = ground (arith, length-append p t)

read_payload-frame :
    (p rest : Bytes)
    → read_payload (length p) (p ++ (le 4 (checksum p) ++ rest)) ≡ check_payload p (checksum p) rest
read_payload-frame p rest = rw (
  ltb-append p _,
  drop-append p _,
  get_le-le 4 (checksum p) rest (checksum-lt p),
  take-append p (le 4 (checksum p) ++ rest),
  read_payload,
)

read_frame-payload :
    (p rest : Bytes)
    → length p < 2 ^ 32
    → read_frame (frame p ++ rest) ≡ check_payload p (checksum p) rest
unfolding read_frame frame
read_frame-payload p rest h =
    rw
      (
        append_assoc (le 4 (length p)) (p ++ le 4 (checksum p)) rest,
        append_assoc p (le 4 (checksum p)) rest,
        is_empty-le 3 (length p) _,
        get_le-le 4 (length p) _ h,
        read_frame,
      )
      (read_payload-frame p rest)

read_frame-nil : read_frame [] ≡ end
unfolding read_frame
read_frame-nil = refl

pub read_frame-frame :
    (e : WalEntry) (rest : Bytes)
    → IsEncodable e
    → read_frame (frame (encode_entry e) ++ rest) ≡ entry e rest
read_frame-frame e rest h =
    rw (read_frame-payload (encode_entry e) rest (omega (arith, length-encode_entry e))) (
      ground (
        arith,
        decode_entry-encode_entry e h,
        nat_beq_iff (checksum (encode_entry e)) (checksum (encode_entry e)),
      ))

pub length-frames : (es : List WalEntry) → length es ≤ length (frames es)
length-frames [] = omega arith
length-frames (e ∷ es) = omega (
  arith,
  length-append (frame (encode_entry e)) (frames es),
  length-frame (encode_entry e),
  length-frames es,
)

module _ {S E : Type 0} (apply : WalEntry → S → Applied E × S) where
  -- What a recovery does to the state, entry by entry: it stops at the first refusal.
  unfoldable pub replay : List WalEntry → ℕ → S → Recovered E × S
  replay [] last s = (finished last, s)
  replay (e ∷ es) last s =
      let (a, s') = apply e s in
      elim a [
        | applied ↦ replay es e.seq s'
        | refused err ↦ (apply_failed last err, s')
        | panicked ↦ (crashed, s')
      ]

  recover_loop-frames :
      (es : List WalEntry) (fuel last : ℕ) (s : S)
      → AllEncodable es
      → length es < fuel
      → recover_loop apply fuel (frames es) last s ≡ replay es last s
  unfolding recover_loop replay
  recover_loop-frames es zero last s a h = absurd (omega arith)
  recover_loop-frames [] (suc fuel) last s a h = rw (read_frame-nil, recover_loop)
  recover_loop-frames (e ∷ es) (suc fuel) last s a h =
      rw (read_frame-frame e (frames es) a.0, recover_loop)
        (ground (arith, recover_loop-frames es fuel e.seq (apply e s).1 a.1))

  -- Recovery from a log of whole frames of entries that the format can hold replays exactly
  -- those entries, in their order.
  pub recover-frames :
      (es : List WalEntry) (s : S) → AllEncodable es → recover apply (frames es) s ≡ replay es 0 s
  unfolding recover
  recover-frames es s a =
      recover_loop-frames es (suc (length (frames es))) 0 s a (omega (arith, length-frames es))
