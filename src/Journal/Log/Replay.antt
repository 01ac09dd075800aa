-- ===== src/Journal/Log/Replay.antt =====
-- The journal refines a list of records: what was appended since the last truncation is what a
-- replay yields, in order, also across a reopen.
pub mod Refinement
use mathlib.Core.Path.{subst}
use strata_db.Prelude.{
  ℕ, zero, suc, ◌+◌, ◌-◌, ◌^◌, ◌≤◌, ◌<◌, ◌≡◌, refl, sym, ap, ◌∙◌, List, [], ◌∷◌, ◌++◌, append_assoc,
  append-nil, map, none, some, length, length-append, All, Result, ok, arith,
}
use strata_db.Filesystem.Codec.{to_be_bytes, from_be_bytes, split_front}
use strata_db.Journal.Frame.{write_frame, read_frame, read_rest}
use strata_db.Journal.Frame.RoundTrip.{
  length-write_frame, read_frame-append, read_frame-write_frame,
}
use strata_db.Journal.Frame.Torn.{read_frame_end}
use strata_db.Journal.File.{File, write_all, set_len, seek_start, seek_end, zeros}
use strata_db.Journal.File.Laws.{write_all_at_end}
use strata_db.Journal.Log.{
  JournalError, Codec, Journal, header, header_len, open_journal, write_header, verify_header,
  append, append_all, replay_from, replay, truncate,
}

module _ (crc32 : List ℕ → ℕ) {R : Type 0} (codec : Codec R) where
  -- The payload's length and checksum fit their `u32` fields, and the codec reads it back.
  pub record Fits (r : R) : Type 0 where
    pub len : length (codec.encode r) < 2 ^ 32
    pub crc : crc32 (codec.encode r) < 2 ^ 32
    pub decodes : codec.decode (codec.encode r) ≡ ok r

  abbrev pub frame : R → List ℕ
  frame r = write_frame crc32 (codec.encode r)

  abbrev pub frames : List R → List ℕ
  frames [] = []
  frames (r ∷ rs) = frame r ++ frames rs

  pub frames-append : (xs ys : List R) → frames (xs ++ ys) ≡ frames xs ++ frames ys
  frames-append [] ys = refl
  frames-append (x ∷ xs) ys =
      ap (λ t. frame x ++ t) (frames-append xs ys)
      ∙ sym (append_assoc (frame x) (frames xs) (frames ys))

  pub length-le-frames : (rs : List R) → length rs ≤ length (frames rs)
  length-le-frames [] = omega arith
  length-le-frames (r ∷ rs) = omega (
    arith,
    length-append (frame r) (frames rs),
    length-write_frame crc32 (codec.encode r),
    length-le-frames rs,
  )

  -- The file holds the header and the frames of `rs`, and the cursor stands at its end.
  pub record Holds (rs : List R) (j : Journal) : Type 0 where
    pub bytes : j.file.bytes ≡ header ++ frames rs
    pub at_end : j.file.cursor ≡ length j.file.bytes

  -- Behind `pre` stand the frames of `rs`, and then bytes that are no frame.
  pub replay_from-frames :
      (rs : List R) (fuel : ℕ) (pre rest : List ℕ)
      → All Fits rs
      → length rs < fuel
      → read_frame crc32 ((pre ++ frames rs) ++ rest) (length (pre ++ frames rs)) ≡ none
      → replay_from crc32 codec fuel (pre ++ (frames rs ++ rest)) (length pre) ≡ map ok rs
  unfolding replay_from
  replay_from-frames rs zero pre rest fits enough stop = absurd (omega arith)
  replay_from-frames [] (suc fuel) pre rest fits enough stop =
      rw ((rw (append-nil pre) at stop), replay_from)
  replay_from-frames (r ∷ rs) (suc fuel) pre rest fits enough stop =
      rw (append_assoc (frame r) (frames rs) rest) (
        rw (first, replay_from)
          (rw (fits.0.decodes) (
            rw (sym (append_assoc pre (frame r) (frames rs ++ rest))) (
              ap (◌∷◌ (ok r)) (
                replay_from-frames rs fuel (pre ++ frame r) rest fits.1 (omega arith)
                  (rw (sym (append_assoc pre (frame r) (frames rs))) at stop))))))
    where
      first :
          read_frame crc32 (pre ++ (frame r ++ (frames rs ++ rest))) (length pre)
          ≡ some (codec.encode r, length (pre ++ frame r))
      first =
          read_frame-write_frame crc32 pre (codec.encode r) (frames rs ++ rest) fits.0.len
            fits.0.crc

  -- A whole file: the header, the frames of `rs`, and a tail that is no frame.
  pub replay_file :
      (rs : List R) (tail : List ℕ)
      → All Fits rs
      → read_frame crc32 ((header ++ frames rs) ++ tail) (length (header ++ frames rs)) ≡ none
      → replay_from crc32 codec
          (length (header ++ (frames rs ++ tail)))
          (header ++ (frames rs ++ tail))
          header_len
        ≡ map ok rs
  unfolding to_be_bytes
  replay_file rs tail fits stop =
      replay_from-frames rs (length (header ++ (frames rs ++ tail))) header tail fits
        (omega (
          arith,
          length-append header (frames rs ++ tail),
          length-append (frames rs) tail,
          length-le-frames rs,
        ))
        stop

  -- With no bytes behind the frames, a replay yields the records and ends.
  pub replay-Holds :
      (rs : List R) (j : Journal) → All Fits rs → Holds rs j → replay crc32 codec j ≡ map ok rs
  unfolding replay
  replay-Holds rs j fits h = rw h.bytes (
      subst
        (λ b. replay_from crc32 codec (length (header ++ b)) (header ++ b) header_len ≡ map ok rs)
        (append-nil (frames rs))
        (replay_file rs [] fits (read_frame_end crc32 (header ++ frames rs))))

-- A file with our header opens, and nothing on it changes.
pub open_journal-header :
    (rest : List ℕ)
    → open_journal (header ++ rest)
      ≡ ok (record { file = record { bytes = header ++ rest; cursor = length (header ++ rest) } })
unfolding open_journal write_header verify_header seek_start seek_end to_be_bytes from_be_bytes
open_journal-header rest = ground arith

-- A missing or empty file gets a header.
pub open_journal-empty :
    open_journal [] ≡ ok (record { file = record { bytes = header; cursor = 6 } })
unfolding open_journal write_header seek_end write_all to_be_bytes zeros
open_journal-empty = refl

module _ (crc32 : List ℕ → ℕ) {R : Type 0} (codec : Codec R) where
  pub append-Holds :
      (rs : List R) (r : R) (j : Journal)
      → Holds crc32 codec rs j
      → Holds crc32 codec (rs ++ (r ∷ [])) (append crc32 codec r j)
  unfolding append
  append-Holds rs r j h = rw (write_all_at_end j.file (frame crc32 codec r) h.at_end) (record {
    bytes =
        ap (λ b. b ++ frame crc32 codec r) h.bytes
        ∙ append_assoc header (frames crc32 codec rs) (frame crc32 codec r)
        ∙ ap (λ b. header ++ b)
            (ap (λ b. frames crc32 codec rs ++ b) (sym (append-nil (frame crc32 codec r)))
              ∙ sym (frames-append crc32 codec rs (r ∷ [])));
    at_end = sym (length-append j.file.bytes (frame crc32 codec r));
  })

  pub truncate-Holds :
      (rs : List R) (j : Journal) → Holds crc32 codec rs j → Holds crc32 codec [] (truncate j)
  unfolding truncate set_len seek_start zeros to_be_bytes
  truncate-Holds rs j h = rw h.bytes (record {
    bytes = cut (length (frames crc32 codec rs));
    at_end = ap length (sym (cut (length (frames crc32 codec rs))));
  })
    where
      cut :
          (n : ℕ)
          → header ++ zeros (header_len - (suc (suc (suc (suc (suc (suc n))))))) ≡ header ++ []
      cut n =
          let e : header_len - (suc (suc (suc (suc (suc (suc n)))))) ≡ 0 = omega arith in
          ap (λ k. header ++ zeros k) e

  pub empty-Holds : Holds crc32 codec [] (record { file = record { bytes = header; cursor = 6 } })
  unfolding to_be_bytes
  empty-Holds = record { bytes = refl; at_end = refl }

  -- A reopen finds the journal as it was.
  pub reopen-Holds :
      (rs : List R) (j : Journal) → Holds crc32 codec rs j → open_journal j.file.bytes ≡ ok j
  reopen-Holds rs j h =
      rw h.bytes (open_journal-header (frames crc32 codec rs))
      ∙ ap (λ f. ok (record { file = f }))
          (λ i. record {
            bytes = sym h.bytes i;
            cursor = (ap length (sym h.bytes) ∙ sym h.at_end) i;
          })
