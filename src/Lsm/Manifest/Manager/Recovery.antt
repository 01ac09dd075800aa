-- ===== src/Lsm/Manifest/Manager/Recovery.antt =====
-- What a reopened manifest holds: every edit that was committed, also across checkpoints.
use mathlib.Core.Path.{subst}
use mathlib.Core.List.{foldl-append}
use strata_db.Prelude.{
  ℕ, ◌+◌, ◌<◌, ◌^◌, ◌≡◌, refl, sym, ap, ◌∙◌, List, [], ◌∷◌, ◌++◌, map, none, some, length, All,
  All-append, Result, ok, arith,
}
use strata_db.Journal.Log.{Journal, header}
use strata_db.Journal.Log.Replay.{
  Fits, Holds, replay-Holds, append-Holds, reopen-Holds, empty-Holds, open_journal-empty,
}
use strata_db.Lsm.Error.{LsmError}
use strata_db.Lsm.Manifest.{ManifestEdit, Version, empty_version, apply, to_snapshot, replay_edits}
use strata_db.Lsm.Manifest.Snapshot.{apply-to_snapshot}
use strata_db.Lsm.Manifest.Codec.{edit_codec, encode_edit}
use strata_db.Lsm.Manifest.Codec.RoundTrip.{FitsOp, decode_edit-encode_edit}
use strata_db.Lsm.Manifest.Manager.{
  ManifestDir, ManifestManager, with_file, write_current, lift, apply_all, open_manifest, commit,
  switch_to, checkpoint,
}

pub apply_all-ok :
    (v : Version) (edits : List ManifestEdit)
    → apply_all v (map ok edits) ≡ ok (replay_edits v edits)
unfolding apply_all replay_edits
apply_all-ok v [] = refl
apply_all-ok v (e ∷ es) = apply_all-ok (apply v e) es

pub replay_edits-append :
    (v : Version) (es : List ManifestEdit) (e : ManifestEdit)
    → replay_edits v (es ++ (e ∷ [])) ≡ apply (replay_edits v es) e
unfolding replay_edits
replay_edits-append v es e = rw foldl-append

-- An edit whose numbers and counts fit their fields.
pub record FitsEdit (edit : ManifestEdit) : Type 0 where
  pub count : length edit < 2 ^ 32
  pub ops : All FitsOp edit
  pub len : length (encode_edit edit) < 2 ^ 32

-- No file is there yet.
abbrev pub empty_dir : ManifestDir
empty_dir = record { pointer = none; files = λ n. [] }

module _ (crc32 : List ℕ → ℕ) (crc_u32 : (p : List ℕ) → crc32 p < 2 ^ 32) where
  pub FitsEdit-Fits : (edit : ManifestEdit) → FitsEdit edit → Fits crc32 edit_codec edit
  FitsEdit-Fits edit f = record {
    len = f.len;
    crc = crc_u32 (encode_edit edit);
    decodes = decode_edit-encode_edit edit f.count f.ops;
  }

  -- The directory names the journal in use, which holds `log`, and no later file is there.
  pub record IsDurable (m : ManifestManager) (log : List ManifestEdit) : Type 0 where
    pub pointer : m.dir.pointer ≡ some m.current
    pub on_disk : m.dir.files m.current ≡ m.journal.file.bytes
    pub holds : Holds crc32 edit_codec log m.journal
    pub fits : All (Fits crc32 edit_codec) log
    pub folded : m.version ≡ replay_edits empty_version log
    pub clear : (n : ℕ) → m.current < n → m.dir.files n ≡ []

  -- An open replays the journal that the directory names.
  pub open_manifest-log :
      (m : ManifestManager) (log : List ManifestEdit)
      → m.dir.pointer ≡ some m.current
      → m.dir.files m.current ≡ m.journal.file.bytes
      → Holds crc32 edit_codec log m.journal
      → All (Fits crc32 edit_codec) log
      → open_manifest crc32 m.dir ≡ ok (record m { version = replay_edits empty_version log })
  unfolding open_manifest
  open_manifest-log m log pointer on_disk holds fits = rw pointer (
      rw on_disk (
        rw (reopen-Holds crc32 edit_codec log m.journal holds) (
          rw (replay-Holds crc32 edit_codec log m.journal fits holds)
            (rw (apply_all-ok empty_version log)))))

  open_manifest-IsDurable :
      (m : ManifestManager) (log : List ManifestEdit)
      → IsDurable m log
      → open_manifest crc32 m.dir ≡ ok m
  open_manifest-IsDurable m log d =
      open_manifest-log m log d.pointer d.on_disk d.holds d.fits
      ∙ ap (λ v. ok (record m { version = v })) (sym d.folded)

  commit-IsDurable :
      (m : ManifestManager) (log : List ManifestEdit) (edit : ManifestEdit)
      → FitsEdit edit
      → IsDurable m log
      → IsDurable (commit crc32 edit m) (log ++ (edit ∷ []))
  unfolding commit
  commit-IsDurable m log edit f d = record {
    pointer = d.pointer;
    on_disk = ground arith;
    holds = append-Holds crc32 edit_codec log edit m.journal d.holds;
    fits = All-append (Fits crc32 edit_codec) log (edit ∷ []) d.fits (FitsEdit-Fits edit f, tt);
    folded = ap (λ v. apply v edit) d.folded ∙ sym (replay_edits-append empty_version log edit);
    clear = λ n h. ground (arith, d.clear n);
  }

  -- The journal of a manifest file that was just created.
  abbrev pub fresh : Journal
  fresh = record { file = record { bytes = header; cursor = 6 } }

  switch_to-IsDurable :
      (m : ManifestManager) (log : List ManifestEdit)
      → FitsEdit (to_snapshot m.version)
      → IsDurable m log
      → IsDurable (switch_to crc32 fresh m) (to_snapshot m.version ∷ [])
  unfolding switch_to
  switch_to-IsDurable m log f d = record {
    pointer = refl;
    on_disk = ground arith;
    holds =
        append-Holds crc32 edit_codec [] (to_snapshot m.version) fresh
          (empty-Holds crc32 edit_codec);
    fits = (FitsEdit-Fits (to_snapshot m.version) f, tt);
    folded = sym (unfold replay_edits in apply-to_snapshot m.version);
    clear = λ n h. ground (arith, d.clear n);
  }

  checkpoint-fresh :
      (m : ManifestManager) (log : List ManifestEdit)
      → IsDurable m log
      → checkpoint crc32 m ≡ ok (switch_to crc32 fresh m)
  unfolding checkpoint lift
  checkpoint-fresh m log d = rw (d.clear (m.current + 1) (omega arith)) (rw open_journal-empty)

  -- The managers that opens, commits and checkpoints lead to from an empty directory, each with
  -- the edits that were committed.
  pub data Reach : ManifestManager → List ManifestEdit → Type 0 where
    started : {m : ManifestManager} → open_manifest crc32 empty_dir ≡ ok m → Reach m []
    committed :
        {m : ManifestManager} {es : List ManifestEdit} (edit : ManifestEdit)
        → Reach m es
        → FitsEdit edit
        → Reach (commit crc32 edit m) (es ++ (edit ∷ []))
    checkpointed :
        {m m' : ManifestManager} {es : List ManifestEdit}
        → Reach m es
        → FitsEdit (to_snapshot m.version)
        → checkpoint crc32 m ≡ ok m'
        → Reach m' es
    reopened :
        {m m' : ManifestManager} {es : List ManifestEdit}
        → Reach m es
        → open_manifest crc32 m.dir ≡ ok m'
        → Reach m' es

  -- The journal of a reachable manager holds a log that folds to its version.
  abbrev Recovers : ManifestManager → List ManifestEdit → Type 0
  Recovers m es =
      ((log : List ManifestEdit) × IsDurable m log) × (m.version ≡ replay_edits empty_version es)

  Recovers-eq :
      {m m' : ManifestManager} (es : List ManifestEdit) (r : Result LsmError ManifestManager)
      → r ≡ ok m
      → r ≡ ok m'
      → Recovers m es
      → Recovers m' es
  Recovers-eq es r e e' h = subst (λ k. Recovers k es) (cc) h

  unfoldable pub start : ManifestManager
  start = record {
    dir = write_current 0 (with_file 0 header empty_dir);
    current = 0;
    journal = fresh;
    version = empty_version;
  }

  pub open_manifest-empty : open_manifest crc32 empty_dir ≡ ok start
  unfolding open_manifest start
  open_manifest-empty = rw open_journal-empty

  start-Recovers : Recovers start []
  unfolding start write_current replay_edits
  start-Recovers = (
    (
      [],
      record {
        pointer = refl;
        on_disk = refl;
        holds = empty-Holds crc32 edit_codec;
        fits = tt;
        folded = refl;
        clear = λ n h. ground arith;
      },
    ),
    refl,
  )

  Reach-Recovers : {m : ManifestManager} {es : List ManifestEdit} → Reach m es → Recovers m es
  unfolding commit switch_to
  Reach-Recovers (started e) = Recovers-eq [] _ open_manifest-empty e start-Recovers
  Reach-Recovers (committed {m} {es} edit r f) =
      let ((log, d), folded) = Reach-Recovers r in
      (
        (log ++ (edit ∷ []), commit-IsDurable m log edit f d),
        ap (λ v. apply v edit) folded ∙ sym (replay_edits-append empty_version es edit),
      )
  Reach-Recovers (checkpointed {m} {m'} {es} r f e) =
      let ((log, d), folded) = Reach-Recovers r in
      Recovers-eq es (checkpoint crc32 m) (checkpoint-fresh m log d) e
        ((to_snapshot m.version ∷ [], switch_to-IsDurable m log f d), folded)
  Reach-Recovers (reopened {m} {m'} {es} r e) =
      let ((log, d), folded) = Reach-Recovers r in
      Recovers-eq es (open_manifest crc32 m.dir) (open_manifest-IsDurable m log d) e
        ((log, d), folded)

  -- What an open finds rests on the log of a journal that the directory names.
  pub Reach-IsDurable :
      {m : ManifestManager} {es : List ManifestEdit}
      → Reach m es
      → (log : List ManifestEdit) × IsDurable m log
  Reach-IsDurable r = (Reach-Recovers r).0

  -- However opens, commits and checkpoints follow one another from an empty directory, with edits
  -- and snapshots whose numbers fit their fields and a checksum of 32 bits, the version in memory
  -- is the fold of the committed edits, and a reopen of the directory succeeds and finds the
  -- manager as it was.
  pub manifest_recovers :
      {m : ManifestManager} {es : List ManifestEdit}
      → Reach m es
      → (m.version ≡ replay_edits empty_version es) × (open_manifest crc32 m.dir ≡ ok m)
  manifest_recovers {m} r =
      let ((log, d), folded) = Reach-Recovers r in (folded, open_manifest-IsDurable m log d)
