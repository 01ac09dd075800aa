-- ===== src/Lsm/Manifest/Manager/Torn.antt =====
-- A crash within the append of a commit leaves a torn frame at the end of the manifest.
use strata_db.Prelude.{
  ℕ, ◌^◌, ◌<◌, ◌≡◌, refl, sym, ap, ◌∙◌, List, ◌++◌, append_assoc, length, take, ok, ==_iff,
}
use strata_db.Journal.Frame.Torn.{read_frame_torn}
use strata_db.Journal.Log.{header, replay}
use strata_db.Journal.Log.Replay.{Fits, frame, frames, replay_file, open_journal-header}
use strata_db.Lsm.Manifest.{ManifestEdit, empty_version, replay_edits}
use strata_db.Lsm.Manifest.Codec.{edit_codec, encode_edit}
use strata_db.Lsm.Manifest.Manager.{ManifestDir, ManifestManager, with_file, lift, open_manifest}
use strata_db.Lsm.Manifest.Manager.Recovery.{
  FitsEdit, FitsEdit-Fits, IsDurable, Reach, Reach-IsDurable, apply_all-ok,
}

module _ (crc32 : List ℕ → ℕ) (crc_u32 : (p : List ℕ) → crc32 p < 2 ^ 32) where
  -- The manifest's bytes when the commit stops after `n` bytes of its frame.
  abbrev pub torn_bytes : ManifestEdit → ℕ → ManifestManager → List ℕ
  torn_bytes edit n m = m.journal.file.bytes ++ take n (frame crc32 edit_codec edit)

  abbrev pub torn_dir : ManifestEdit → ℕ → ManifestManager → ManifestDir
  torn_dir edit n m = with_file m.current (torn_bytes edit n m) m.dir

  -- What an open makes of it: the torn bytes stay, and the edit has not happened.
  abbrev pub torn_manager : ManifestEdit → ℕ → ManifestManager → ManifestManager
  torn_manager edit n m = record m {
    dir = torn_dir edit n m;
    journal = record {
      file = record { bytes = torn_bytes edit n m; cursor = length (torn_bytes edit n m) };
    };
  }

  torn_dir-file :
      (edit : ManifestEdit) (n : ℕ) (m : ManifestManager)
      → (torn_dir edit n m).files m.current ≡ torn_bytes edit n m
  torn_dir-file edit n m = rw ((==_iff m.current m.current).1 refl) refl

  torn-regroup :
      (edit : ManifestEdit) (n : ℕ) (m : ManifestManager) (log : List ManifestEdit)
      → m.journal.file.bytes ≡ header ++ frames crc32 edit_codec log
      → torn_bytes edit n m
        ≡ header ++ (frames crc32 edit_codec log ++ take n (frame crc32 edit_codec edit))
  torn-regroup edit n m log h =
      let torn = take n (frame crc32 edit_codec edit) in
      ap (λ b. b ++ torn) h ∙ append_assoc header (frames crc32 edit_codec log) torn

  open_manifest-log_torn :
      (m : ManifestManager) (log : List ManifestEdit) (edit : ManifestEdit) (n : ℕ)
      → IsDurable crc32 crc_u32 m log
      → Fits crc32 edit_codec edit
      → n < length (frame crc32 edit_codec edit)
      → open_manifest crc32 (torn_dir edit n m)
        ≡ ok (record (torn_manager edit n m) { version = replay_edits empty_version log })
  unfolding open_manifest lift replay
  open_manifest-log_torn m log edit n d fit cut =
      let same = torn-regroup edit n m log d.holds.bytes in
      let tail = take n (frame crc32 edit_codec edit) in
      let stop =
        read_frame_torn crc32 (header ++ frames crc32 edit_codec log) (encode_edit edit) n fit.len
          fit.crc cut in
      rw d.pointer (
        rw (torn_dir-file edit n m) (
          rw same (
            rw (open_journal-header (frames crc32 edit_codec log ++ tail)) (
              rw (replay_file crc32 edit_codec log tail d.fits stop)
                (rw (apply_all-ok empty_version log))))))

  pub open_manifest-torn :
      {m : ManifestManager} {es : List ManifestEdit} (edit : ManifestEdit) (n : ℕ)
      → Reach crc32 crc_u32 m es
      → FitsEdit edit
      → n < length (frame crc32 edit_codec edit)
      → open_manifest crc32 (torn_dir edit n m) ≡ ok (torn_manager edit n m)
  open_manifest-torn {m} edit n r fit cut =
      let (log, d) = Reach-IsDurable crc32 crc_u32 r in
      open_manifest-log_torn m log edit n d (FitsEdit-Fits crc32 crc_u32 edit fit) cut
      ∙ ap (λ v. ok (record (torn_manager edit n m) { version = v })) (sym d.folded)
