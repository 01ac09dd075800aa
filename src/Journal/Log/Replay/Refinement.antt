-- ===== src/Journal/Log/Replay/Refinement.antt =====
-- Any sequence of appends, truncations and reopens behaves as a list of records.
use strata_db.Prelude.{
  ℕ, ◌≡◌, refl, List, [], ◌∷◌, ◌++◌, map, All, All-append, Result, ok, and_then,
}
use strata_db.Journal.Log.{JournalError, Codec, Journal, open_journal, append, replay, truncate}
use strata_db.Journal.Log.Replay.{
  Fits, Holds, replay-Holds, reopen-Holds, empty-Holds, open_journal-empty, append-Holds,
  truncate-Holds,
}

pub data Op (R : Type 0) : Type 0 where
  appended : R → Op R
  truncated : Op R
  reopened : Op R

-- The abstract log.
unfoldable pub spec : {R : Type 0} → List (Op R) → List R → List R
spec [] log = log
spec (appended r ∷ ops) log = spec ops (log ++ (r ∷ []))
spec (truncated ∷ ops) log = spec ops []
spec (reopened ∷ ops) log = spec ops log

module _ (crc32 : List ℕ → ℕ) {R : Type 0} (codec : Codec R) where
  -- A reopen goes through the bytes on disk and may fail.
  unfoldable pub run : List (Op R) → Journal → Result JournalError Journal
  run [] j = ok j
  run (appended r ∷ ops) j = run ops (append crc32 codec r j)
  run (truncated ∷ ops) j = run ops (truncate j)
  run (reopened ∷ ops) j = and_then (open_journal j.file.bytes) (λ j'. run ops j')

  abbrev pub OpFits : Op R → Type 0
  OpFits (appended r) = Fits crc32 codec r
  OpFits _ = Unit

  spec-Fits :
      (ops : List (Op R)) (log : List R)
      → All OpFits ops
      → All (Fits crc32 codec) log
      → All (Fits crc32 codec) (spec ops log)
  unfolding spec
  spec-Fits [] log h k = k
  spec-Fits (appended r ∷ ops) log h k =
      spec-Fits ops (log ++ (r ∷ [])) h.1 (All-append (Fits crc32 codec) log (r ∷ []) k (h.0, tt))
  spec-Fits (truncated ∷ ops) log h k = spec-Fits ops [] h.1 tt
  spec-Fits (reopened ∷ ops) log h k = spec-Fits ops log h.1 k

  run-Holds :
      (ops : List (Op R)) (log : List R) (j : Journal)
      → Holds crc32 codec log j
      → (j' : Journal) × (run ops j ≡ ok j') × Holds crc32 codec (spec ops log) j'
  unfolding run spec
  run-Holds [] log j h = (j, refl, h)
  run-Holds (appended r ∷ ops) log j h =
      run-Holds ops (log ++ (r ∷ [])) (append crc32 codec r j) (append-Holds crc32 codec log r j h)
  run-Holds (truncated ∷ ops) log j h =
      run-Holds ops [] (truncate j) (truncate-Holds crc32 codec log j h)
  run-Holds (reopened ∷ ops) log j h = rw (reopen-Holds crc32 codec log j h) (run-Holds ops log j h)

  -- From an empty disk, any sequence of appends of records that fit their frame, truncations and
  -- reopens succeeds, and a replay then yields exactly the records appended since the last
  -- truncation, in order, each decoded.
  pub run_refines_spec :
      (ops : List (Op R))
      → All OpFits ops
      → (j : Journal) × (and_then (open_journal []) (λ j0. run ops j0) ≡ ok j)
        × (replay crc32 codec j ≡ map ok (spec ops []))
  run_refines_spec ops fits =
      let (j, ran, holds) = run-Holds ops [] _ (empty-Holds crc32 codec) in
      (
        j,
        rw open_journal-empty ran,
        replay-Holds crc32 codec (spec ops []) j (spec-Fits ops [] fits tt) holds,
      )
