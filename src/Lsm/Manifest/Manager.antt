-- ===== src/Lsm/Manifest/Manager.antt =====
-- crates/lsm/src/manifest/manager.rs. The manifest directory is the `CURRENT` pointer and the bytes
-- of each `MANIFEST-n`, with no bytes for a file that is not there. The pointer's text form and its
-- temporary file are left out: the rename makes its update one step.
pub mod Recovery
pub mod Leftover
pub mod Collect
pub mod Torn
mod Examples
use strata_db.Prelude.{
  ℕ, ◌+◌, List, [], ◌∷◌, Option, none, some, Bool, not, ◌&&◌, ◌||◌, true, false, ltb, ◌==◌,
  if◌then◌else◌, Result, ok, err, and_then,
}
use strata_db.Journal.Log.{JournalError, Journal, open_journal, append, replay}
use strata_db.Lsm.Error.{LsmError, from_journal_error}
use strata_db.Lsm.Manifest.{ManifestEdit, Version, empty_version, apply, to_snapshot, live_files}
use strata_db.Lsm.Manifest.Codec.{edit_codec}

pub record ManifestDir : Type 0 where
  pub pointer : Option ℕ
  pub files : ℕ → List ℕ

-- The directory with other bytes in `MANIFEST-n`.
abbrev pub with_file : ℕ → List ℕ → ManifestDir → ManifestDir
with_file n bytes dir = record {
  pointer = dir.pointer;
  files = λ m. if m == n then bytes else dir.files m;
}

-- `write_current`
unfoldable pub write_current : ℕ → ManifestDir → ManifestDir
write_current n dir = record { pointer = some n; files = dir.files }

-- What `append` writes to the journal's file is on disk when it returns, so the directory follows
-- the journal.
pub record ManifestManager : Type 0 where
  pub dir : ManifestDir
  pub current : ℕ
  pub journal : Journal
  pub version : Version

-- `?` on a journal's error.
unfoldable pub lift : {A : Type 0} → Result JournalError A → Result LsmError A
lift (ok a) = ok a
lift (err e) = err (from_journal_error e)

-- `for edit in journal.replay()? { version.apply(&edit?); }`
unfoldable pub apply_all :
    Version → List (Result JournalError ManifestEdit) → Result LsmError Version
apply_all v [] = ok v
apply_all v (err e ∷ rest) = err (from_journal_error e)
apply_all v (ok edit ∷ rest) = apply_all (apply v edit) rest

module _ (crc32 : List ℕ → ℕ) where
  unfoldable pub open_manifest : ManifestDir → Result LsmError ManifestManager
  unfolding lift apply_all write_current
  open_manifest dir = elim dir.pointer [
    | some current ↦ and_then (lift (open_journal (dir.files current))) (λ journal.
        and_then (apply_all empty_version (replay crc32 edit_codec journal)) (λ version.
          ok (record { dir = dir; current = current; journal = journal; version = version })))
    | none ↦ and_then (lift (open_journal (dir.files 0))) (λ journal. ok (record {
      dir = write_current 0 (with_file 0 journal.file.bytes dir);
      current = 0;
      journal = journal;
      version = empty_version;
    }))
  ]

  unfoldable pub commit : ManifestEdit → ManifestManager → ManifestManager
  commit edit m =
      let journal = append crc32 edit_codec edit m.journal in
      record {
        dir = with_file m.current journal.file.bytes m.dir;
        current = m.current;
        journal = journal;
        version = apply m.version edit;
      }

  -- The steps of `checkpoint` behind the open of the fresh manifest's journal.
  unfoldable pub switch_to : Journal → ManifestManager → ManifestManager
  unfolding write_current
  switch_to opened m =
      let next = m.current + 1 in
      let fresh = append crc32 edit_codec (to_snapshot m.version) opened in
      record {
        dir = with_file m.current [] (write_current next (with_file next fresh.file.bytes m.dir));
        current = next;
        journal = fresh;
        version = m.version;
      }

  unfoldable pub checkpoint : ManifestManager → Result LsmError ManifestManager
  unfolding lift switch_to
  checkpoint m =
      and_then (lift (open_journal (m.dir.files (m.current + 1))))
        (λ opened. ok (switch_to opened m))

abbrev pub member : ℕ → List ℕ → Bool
member id [] = false
member id (f ∷ fs) = f == id || member id fs

-- `garbage_collect` over the ids of the SSTables in the directory: what it deletes, and what stays.
unfoldable pub garbage_collect : Version → List ℕ → List ℕ × List ℕ
garbage_collect v [] = ([], [])
garbage_collect v (id ∷ ids) =
    let (removed, kept) = garbage_collect v ids in
    if ltb id v.next_sst_id && not (member id (live_files v))
    then (id ∷ removed, kept)
    else (removed, id ∷ kept)
