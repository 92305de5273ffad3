-- ===== src/Asset/Shard/Rejected.antt =====
-- A log that holds a command which its replay refuses: `Recover` stops there.
use little_cex.Prelude.{
  Bytes, suc, ◌+◌, ◌-◌, length, length-append, arith, ℕ, ◌≡◌, ◌≢◌, refl, ap, ap₂, ◌∙◌, sym, List,
  [], ◌∷◌, ◌++◌, ◌⊎◌, inl, inr,
}
use little_cex.Asset.Wal.{
  WalEntry, recover, Recovered, finished, apply_failed, crashed, Applied, applied, refused,
  panicked,
}
use little_cex.Asset.Wal.{recover_loop, frame, encode_entry}
use little_cex.Asset.Wal.RoundTrip.{IsEncodable}
use little_cex.Asset.Wal.Replay.{frames, AllEncodable, replay, read_frame-frame, length-frames}
use mathlib.Core.List.{append_assoc}
use little_cex.Asset.Shard.State.{Shard, Error}
use little_cex.Asset.Shard.Handler.{replay_entry}

module _ {S E : Type 0} (apply : WalEntry → S → Applied E × S) where
  replay_goes_on :
      (e : WalEntry) (es : List WalEntry) (last : ℕ) (s : S)
      → (apply e s).0 ≡ applied
      → replay apply (e ∷ es) last s ≡ replay apply es e.seq (apply e s).1
  unfolding replay
  replay_goes_on e es last s h = rw (h, replay) refl

  replay_refusal :
      (e : WalEntry) (es : List WalEntry) (last : ℕ) (s : S) (err : E)
      → (apply e s).0 ≡ refused err
      → replay apply (e ∷ es) last s ≡ (apply_failed last err, (apply e s).1)
  unfolding replay
  replay_refusal e es last s err h = rw (h, replay) refl

  replay_panic :
      (e : WalEntry) (es : List WalEntry) (last : ℕ) (s : S)
      → (apply e s).0 ≡ panicked
      → replay apply (e ∷ es) last s ≡ (crashed, (apply e s).1)
  unfolding replay
  replay_panic e es last s h = rw (h, replay) refl

  Applied_cases :
      (a : Applied E) → (a ≡ applied) ⊎ (((err : E) × (a ≡ refused err)) ⊎ (a ≡ panicked))
  Applied_cases applied = inl refl
  Applied_cases (refused err) = inr (inl (err, refl))
  Applied_cases panicked = inr (inr refl)

  abbrev number_of : Recovered E → ℕ
  number_of (finished n) = n
  number_of _ = 0

  failed-ne-finished : {last n : ℕ} {err : E} → apply_failed last err ≢ finished n
  failed-ne-finished e = cc

  crashed-ne-finished : {n : ℕ} → Path (Recovered E) crashed (finished n) → ⊥
  crashed-ne-finished e = cc

  loop_goes_on :
      (fuel : ℕ) (e : WalEntry) (tail : Bytes) (last : ℕ) (s : S)
      → IsEncodable e
      → (apply e s).0 ≡ applied
      → recover_loop apply (suc fuel) (frame (encode_entry e) ++ tail) last s
        ≡ recover_loop apply fuel tail e.seq (apply e s).1
  unfolding recover_loop
  loop_goes_on fuel e tail last s held h = rw (read_frame-frame e tail held, h, recover_loop) refl

  loop_refusal :
      (fuel : ℕ) (e : WalEntry) (tail : Bytes) (last : ℕ) (s : S) (err : E)
      → IsEncodable e
      → (apply e s).0 ≡ refused err
      → recover_loop apply (suc fuel) (frame (encode_entry e) ++ tail) last s
        ≡ (apply_failed last err, (apply e s).1)
  unfolding recover_loop
  loop_refusal fuel e tail last s err held h =
      rw (read_frame-frame e tail held, h, recover_loop) refl

  -- The loop gets through entries that a replay gets through, and goes on with what follows.
  recover_loop-append :
      (before : List WalEntry) (tail : Bytes) (fuel last n : ℕ) (s s' : S)
      → AllEncodable before
      → replay apply before last s ≡ (finished n, s')
      → recover_loop apply (length before + fuel) (frames before ++ tail) last s
        ≡ recover_loop apply fuel tail n s'
  unfolding replay
  recover_loop-append [] tail fuel last n s s' held h =
      ap (λ (f : ℕ). recover_loop apply f tail last s) (omega arith)
      ∙ ap₂ (λ (k : ℕ) (t : S). recover_loop apply fuel tail k t)
          (ap (λ (r : Recovered E × S). number_of r.0) h) (ap (λ (r : Recovered E × S). r.1) h)
  recover_loop-append (e ∷ before) tail fuel last n s s' held h =
      elim (Applied_cases (apply e s).0) [
        | inl done ↦
            ap₂ (λ (f : ℕ) (bs : Bytes). recover_loop apply f bs last s) (omega arith)
              (append_assoc (frame (encode_entry e)) (frames before) tail)
            ∙ loop_goes_on (length before + fuel) e (frames before ++ tail) last s held.0 done
            ∙ recover_loop-append before tail fuel e.seq n (apply e s).1 s' held.1
                (sym (replay_goes_on e before last s done) ∙ h)
        | inr (inl (err, stop)) ↦ absurd (
            failed-ne-finished (
              ap (λ (r : Recovered E × S). r.0)
                (sym (replay_refusal e before last s err stop) ∙ h)))
        | inr (inr stop) ↦ absurd (
            crashed-ne-finished
              (ap (λ (r : Recovered E × S). r.0) (sym (replay_panic e before last s stop) ∙ h)))
      ]

-- Where the replay of a log comes to a whole frame of an entry whose command the shard refuses,
-- behind whole frames of entries that replay, all of which the format can hold, recovery fails with
-- that refusal, whatever bytes follow in the log, and leaves the shard as the entries before left
-- it, with what the refused command wrote.
pub recover-refused :
    (before : List WalEntry) (tail : Bytes) (e : WalEntry) (n : ℕ) (s s' : Shard) (err : Error)
    → AllEncodable before
    → IsEncodable e
    → replay replay_entry before 0 s ≡ (finished n, s')
    → (replay_entry e s').0 ≡ refused err
    → recover replay_entry (frames before ++ (frame (encode_entry e) ++ tail)) s
      ≡ (apply_failed n err, (replay_entry e s').1)
unfolding recover
recover-refused before tail e n s s' err held own done stop =
    ap
      (λ (f : ℕ).
        recover_loop replay_entry f (frames before ++ (frame (encode_entry e) ++ tail)) 0 s)
      enough
    ∙ recover_loop-append replay_entry before (frame (encode_entry e) ++ tail) (suc spare) 0 n s s'
        held done
    ∙ loop_refusal replay_entry spare e tail n s' err own stop
  where
    log : Bytes
    log = frames before ++ (frame (encode_entry e) ++ tail)

    spare : ℕ
    spare = length log - length before

    enough : suc (length log) ≡ length before + suc spare
    enough = omega (
      arith,
      length-append (frames before) (frame (encode_entry e) ++ tail),
      length-frames before,
    )
