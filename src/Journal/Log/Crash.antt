-- ===== src/Journal/Log/Crash.antt =====
-- A crash in the middle of an append leaves a torn frame at the end of the file.
use strata_db.Prelude.{
  ℕ, ◌+◌, ◌≤◌, ◌<◌, ◌≡◌, refl, ap, ◌∙◌, List, ◌++◌, append_assoc, map, All, ok, length, take,
}
use strata_db.Journal.Frame.Torn.{read_frame_torn, read_frame_cut}
use strata_db.Journal.File.{File}
use strata_db.Journal.File.Laws.{write_all_at_end}
use strata_db.Journal.Log.{Codec, Journal, header, open_journal, append, replay}
use strata_db.Journal.Log.Replay.{Fits, frame, frames, replay_file, open_journal-header}

module _ (crc32 : List ℕ → ℕ) {R : Type 0} (codec : Codec R) where
  -- What is on disk when the append of `r` to a log of `rs` stops after `n` bytes of its frame.
  abbrev pub torn_disk : List R → R → ℕ → List ℕ
  torn_disk rs r n = header ++ (frames crc32 codec rs ++ take n (frame crc32 codec r))

  -- After a crash at any byte of an append, the journal opens, and a replay yields exactly the
  -- records whose append had finished, where all records fit their frame.
  pub replay_after_crash :
      (rs : List R) (r : R) (n : ℕ)
      → All (Fits crc32 codec) rs
      → Fits crc32 codec r
      → n < length (frame crc32 codec r)
      → (j : Journal) × (open_journal (torn_disk rs r n) ≡ ok j)
        × (replay crc32 codec j ≡ map ok rs)
  unfolding replay
  replay_after_crash rs r n fits fit cut = (
    _,
    open_journal-header (frames crc32 codec rs ++ take n (frame crc32 codec r)),
    replay_file crc32 codec rs (take n (frame crc32 codec r)) fits (
        read_frame_torn crc32 (header ++ frames crc32 codec rs) (codec.encode r) n fit.len fit.crc
          cut),
  )

  -- The journal reopens at the end of the file and not at the end of its last whole frame: where a
  -- torn frame keeps its header, a record appended after the reopen is lost to every replay as long
  -- as the torn frame's missing bytes are not made up for.
  pub append_after_crash_is_lost :
      (rs : List R) (r new : R) (n : ℕ)
      → All (Fits crc32 codec) rs
      → Fits crc32 codec r
      → 8 ≤ n
      → n + length (frame crc32 codec new) < length (frame crc32 codec r)
      → (j : Journal) × (open_journal (torn_disk rs r n) ≡ ok j)
        × (replay crc32 codec (append crc32 codec new j) ≡ map ok rs)
  unfolding replay append
  append_after_crash_is_lost rs r new n fits fit whole cut = (
    _,
    open_journal-header (frames crc32 codec rs ++ torn),
    rw (write_all_at_end reopened (frame crc32 codec new) refl) (
        rw regroup (
          replay_file crc32 codec rs (torn ++ frame crc32 codec new) fits (
            read_frame_cut crc32 (header ++ frames crc32 codec rs) (codec.encode r)
              (frame crc32 codec new) n fit.len fit.crc whole cut))),
  )
    where
      torn : List ℕ
      torn = take n (frame crc32 codec r)

      reopened : File
      reopened = record {
        bytes = header ++ (frames crc32 codec rs ++ torn);
        cursor = length (header ++ (frames crc32 codec rs ++ torn));
      }

      regroup :
          (header ++ (frames crc32 codec rs ++ torn)) ++ frame crc32 codec new
          ≡ header ++ (frames crc32 codec rs ++ (torn ++ frame crc32 codec new))
      regroup =
          append_assoc header (frames crc32 codec rs ++ torn) (frame crc32 codec new)
          ∙ ap (λ b. header ++ b)
              (append_assoc (frames crc32 codec rs) torn (frame crc32 codec new))
