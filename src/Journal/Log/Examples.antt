-- ===== src/Journal/Log/Examples.antt =====
-- Tests of crates/journal at concrete records, with a checksum that counts bytes.
use Prim.Native.Nat.{min}
use strata_db.Prelude.{
  ℕ, ◌<◌, ◌^◌, ◌≡◌, refl, List, [], ◌∷◌, ◌++◌, none, some, length, take, All, ok, and_then, arith,
}
use strata_db.Journal.Frame.{write_frame, read_frame}
use strata_db.Journal.Frame.RoundTrip.{length-write_frame, read_frame-write_frame}
use strata_db.Journal.Frame.Torn.{read_frame_torn}
use strata_db.Journal.Log.{Journal, bytes_codec, open_journal, append, replay}
use strata_db.Journal.Log.Replay.{Fits}
use strata_db.Journal.Log.Replay.Refinement.{
  Op, appended, truncated, reopened, spec, run, OpFits, run_refines_spec,
}
use strata_db.Journal.Log.Crash.{torn_disk, replay_after_crash, append_after_crash_is_lost}

abbrev checksum : List ℕ → ℕ
checksum p = min (length p) 255

bytes_fit : (r : List ℕ) → length r < 2 ^ 32 → Fits checksum bytes_codec r
bytes_fit r h = record { len = h; crc = omega arith; decodes = refl }

abbrev some_ops : List (Op (List ℕ))
some_ops =
    appended (1 ∷ 2 ∷ []) ∷ reopened ∷ truncated ∷ appended (7 ∷ []) ∷ reopened ∷ appended [] ∷ []

some_ops-fit : All (OpFits checksum bytes_codec) some_ops
some_ops-fit =
    let one = bytes_fit (1 ∷ 2 ∷ []) (omega arith) in
    let two = bytes_fit (7 ∷ []) (omega arith) in
    (one, (tt, (tt, (two, (tt, (bytes_fit [] (omega arith), tt))))))

run_refines_spec_example :
    (j : Journal) × (and_then (open_journal []) (λ j0. run checksum bytes_codec some_ops j0) ≡ ok j)
    × (replay checksum bytes_codec j ≡ ok (7 ∷ []) ∷ ok [] ∷ [])
unfolding spec
run_refines_spec_example = run_refines_spec checksum bytes_codec some_ops some_ops-fit

abbrev first_record : List ℕ
first_record = 1 ∷ 2 ∷ []

abbrev long_record : List ℕ
long_record = 5 ∷ 6 ∷ 7 ∷ 8 ∷ 9 ∷ 5 ∷ 6 ∷ 7 ∷ 8 ∷ 9 ∷ 5 ∷ 6 ∷ []

replay_after_crash_example :
    (j : Journal) × (open_journal
        (torn_disk checksum bytes_codec (first_record ∷ []) long_record 13)
      ≡ ok j)
    × (replay checksum bytes_codec j ≡ ok first_record ∷ [])
replay_after_crash_example =
    replay_after_crash checksum bytes_codec (first_record ∷ []) long_record 13
      (bytes_fit first_record (omega arith), tt) (bytes_fit long_record (omega arith))
      (omega (arith, length-write_frame checksum long_record))

append_after_crash_is_lost_example :
    (j : Journal) × (open_journal (torn_disk checksum bytes_codec (first_record ∷ []) long_record 8)
      ≡ ok j)
    × (replay checksum bytes_codec (append checksum bytes_codec (3 ∷ []) j) ≡ ok first_record ∷ [])
append_after_crash_is_lost_example =
    append_after_crash_is_lost checksum bytes_codec (first_record ∷ []) long_record (3 ∷ []) 8
      (bytes_fit first_record (omega arith), tt) (bytes_fit long_record (omega arith)) (omega arith)
      (omega (arith, length-write_frame checksum long_record, length-write_frame checksum (3 ∷ [])))

read_frame-write_frame_example :
    read_frame checksum ((1 ∷ []) ++ (write_frame checksum first_record ++ (9 ∷ []))) 1
    ≡ some (first_record, length ((1 ∷ []) ++ write_frame checksum first_record))
read_frame-write_frame_example =
    read_frame-write_frame checksum (1 ∷ []) first_record (9 ∷ []) (omega arith) (omega arith)

read_frame_torn_example :
    read_frame checksum ((1 ∷ []) ++ take 9 (write_frame checksum first_record)) 1 ≡ none
read_frame_torn_example =
    read_frame_torn checksum (1 ∷ []) first_record 9 (omega arith) (omega arith)
      (omega (arith, length-write_frame checksum first_record))
