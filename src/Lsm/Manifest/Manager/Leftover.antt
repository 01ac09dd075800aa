-- ===== src/Lsm/Manifest/Manager/Leftover.antt =====
-- A checkpoint that crashed after it wrote the next manifest file and before it flipped `CURRENT`
-- leaves that file behind, and nothing removes it.
use strata_db.Prelude.{ℕ, ◌+◌, ◌<◌, ◌^◌, ◌≡◌, refl, List, [], ◌∷◌, ◌++◌, length, ok, arith}
use strata_db.Journal.Log.{Journal, header}
use strata_db.Journal.Log.Replay.{Holds, frames, append-Holds, open_journal-header}
use strata_db.Lsm.Manifest.{ManifestEdit, Version, empty_version, to_snapshot, replay_edits}
use strata_db.Lsm.Manifest.Snapshot.{runs-apply-to_snapshot, apply-to_snapshot}
use strata_db.Lsm.Manifest.Codec.{edit_codec}
use strata_db.Lsm.Manifest.Manager.{
  ManifestManager, write_current, open_manifest, switch_to, checkpoint,
}
use strata_db.Lsm.Manifest.Manager.Recovery.{FitsEdit, FitsEdit-Fits, open_manifest-log}

module _ (crc32 : List ℕ → ℕ) (crc_u32 : (p : List ℕ) → crc32 p < 2 ^ 32) where
  -- The file that the crashed checkpoint of version `old` left.
  abbrev pub leftover : Version → List ℕ
  leftover old = header ++ frames crc32 edit_codec (to_snapshot old ∷ [])

  abbrev reopened : Version → Journal
  reopened old = record { file = record { bytes = leftover old; cursor = length (leftover old) } }

  abbrev both : Version → Version → List ManifestEdit
  both old new = to_snapshot old ∷ to_snapshot new ∷ []

  switch_to-Holds :
      (m : ManifestManager) (old : Version)
      → Holds crc32 edit_codec (both old m.version) (switch_to crc32 (reopened old) m).journal
  unfolding switch_to
  switch_to-Holds m old =
      append-Holds crc32 edit_codec (to_snapshot old ∷ []) (to_snapshot m.version) (reopened old)
        (record { bytes = refl; at_end = refl })

  -- Where a crashed checkpoint left the next manifest file behind, a later checkpoint appends to
  -- it: a reopen then finds the runs of the old snapshot again, in front of the current ones.
  pub stale_runs_return :
      (m : ManifestManager) (old : Version)
      → m.dir.files (m.current + 1) ≡ leftover old
      → FitsEdit (to_snapshot old)
      → FitsEdit (to_snapshot m.version)
      → (m' m'' : ManifestManager) × (checkpoint crc32 m ≡ ok m')
        × (open_manifest crc32 m'.dir ≡ ok m'')
        × (m'.version ≡ m.version)
        × (m''.version.runs ≡ old.runs ++ m.version.runs)
  unfolding checkpoint
  stale_runs_return m old found f g = (
    switched,
    record switched { version = replay_edits empty_version (both old m.version) },
    rw found (rw (open_journal-header (frames crc32 edit_codec (to_snapshot old ∷ [])))),
    open_manifest-log crc32 crc_u32 switched (both old m.version)
        (unfold switch_to write_current in refl) (unfold switch_to in ground arith)
        (switch_to-Holds m old)
        (
          FitsEdit-Fits crc32 crc_u32 (to_snapshot old) f,
          (FitsEdit-Fits crc32 crc_u32 (to_snapshot m.version) g, tt),
        ),
    unfold switch_to in refl,
    unfold replay_edits in rw (apply-to_snapshot old) (runs-apply-to_snapshot old m.version),
  )
    where
      switched : ManifestManager
      switched = switch_to crc32 (reopened old) m
