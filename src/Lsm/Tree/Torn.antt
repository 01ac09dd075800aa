-- ===== src/Lsm/Tree/Torn.antt =====
-- A crash in front of the end of a flush's commit: the table is on disk, and of the manifest's new frame
-- there are some bytes, none among them.
use strata_db.Prelude.{ℕ, ◌^◌, ◌<◌, ◌≡◌, refl, ap, ◌∙◌, sym, List, some, ok, length, ==_iff, arith}
use strata_db.Journal.Log.Replay.{frame}
use strata_db.Lsm.Memtable.{with_capacity}
use strata_db.Lsm.Journaled.Store.{btree, btree-Clears}
use strata_db.Lsm.Journaled.Recovery.{journaled_recovers}
use strata_db.Lsm.Manifest.{ManifestEdit}
use strata_db.Lsm.Manifest.Codec.{edit_codec}
use strata_db.Lsm.Manifest.Manager.Collect.{above_stays}
use strata_db.Lsm.Manifest.Manager.Torn.{torn_dir, torn_manager, open_manifest-torn}
use strata_db.Lsm.Table.Bloom.{FastBloom, FindsInserted}
use strata_db.Lsm.Tree.{Lsm, with_table, flush_edit, get, get_at, open_lsm}
use strata_db.Lsm.Tree.Memory.{scan_at-everything}
use strata_db.Lsm.Tree.Reach.{Contents, Flushable, sealed_file, Reach, Inv}
use strata_db.Lsm.Tree.Reach.Flush.{wide_seqs}
use strata_db.Lsm.Tree.Reach.Reopen.{open_lsm-eq, reopened_lsm, reopened_lsm-Inv}
use strata_db.Lsm.Tree.Refinement.{get-Inv, stopped_writing-Inv, Reach-Inv}

module _ (crc32 : List ℕ → ℕ) (crc_u32 : (p : List ℕ) → crc32 p < 2 ^ 32) (fb : FastBloom)
    (capacity : ℕ) where
  abbrev pub pending_edit : Lsm → ManifestEdit
  pending_edit s = flush_edit crc32 fb s.manifest.version.next_sst_id s.seq

  -- The tree with the whole table on disk, and nothing of the commit.
  abbrev pub with_sealed : Lsm → Lsm
  with_sealed s = record s {
    tables =
        with_table s.manifest.version.next_sst_id (sealed_file crc32 crc_u32 fb capacity s)
          s.tables;
  }

  -- What an open makes of it when `n` bytes of the commit's frame are on disk.
  abbrev pub torn_lsm : ℕ → List ℕ → Lsm → Lsm
  torn_lsm n ids s = record (reopened_lsm crc32 crc_u32 fb capacity ids (with_sealed s)) {
    manifest = torn_manager crc32 crc_u32 (pending_edit s) n s.manifest;
  }

  open_lsm-torn :
      (s : Lsm) (m : Contents) (ids : List ℕ) (n : ℕ)
      → Inv crc32 crc_u32 fb capacity s m
      → Flushable crc32 crc_u32 fb capacity s
      → n < length (frame crc32 edit_codec (pending_edit s))
      → open_lsm crc32 fb s.config
          (with_sealed s).tables
          ids
          (torn_dir crc32 crc_u32 (pending_edit s) n s.manifest)
          s.mem.journal.file.bytes
          capacity
        ≡ some (ok (torn_lsm n ids s))
  open_lsm-torn s m ids n inv f cut =
      open_lsm-eq crc32 crc_u32 fb capacity s.config (with_sealed s).tables ids
        (torn_dir crc32 crc_u32 (pending_edit s) n s.manifest) s.mem.journal.file.bytes
        (torn_manager crc32 crc_u32 (pending_edit s) n s.manifest) s.mem s.mem.inner.store
        (open_manifest-torn crc32 crc_u32 (pending_edit s) n inv.manifest_reach f.edit cut)
        (journaled_recovers crc32 crc_u32 btree (with_capacity capacity) (btree-Clears capacity)
          s.mem inv.log inv.mem_reach).1
        (scan_at-everything s.mem.inner (wide_seqs s.mem.inner.store inv.fits))
      ∙ ap (λ q. some (ok (record (torn_lsm n ids s) { seq = q }))) (sym inv.resumes)

  -- A lookup reads the version, and not the manifest's files.
  get-torn :
      (n : ℕ) (ids : List ℕ) (s : Lsm) (key : List ℕ)
      → get crc32 fb key (torn_lsm n ids s)
        ≡ get crc32 fb key (reopened_lsm crc32 crc_u32 fb capacity ids (with_sealed s))
  unfolding get get_at
  get-torn n ids s key = refl

  torn-tables :
      (n : ℕ) (ids : List ℕ) (s : Lsm)
      → (torn_lsm n ids s).tables s.manifest.version.next_sst_id
        ≡ some (sealed_file crc32 crc_u32 fb capacity s)
  torn-tables n ids s =
      let next = s.manifest.version.next_sst_id in
      rw (above_stays s.manifest.version next ids (omega arith))
        (rw ((==_iff next next).1 refl) refl)

  module _ (finds : FindsInserted fb) where
    -- With at least one configured level, records, tables and edits that fit their fields and a
    -- filter that finds what was inserted, on any tree that opens, writes, flushes, checkpoints and
    -- crashes between the steps of a flush lead to, a crash at any byte of the frame that a flush
    -- commits, with its table on disk, leaves a directory that opens again, whatever tables it
    -- lists: every lookup gives the value last written, and the table that was not committed is
    -- still there, since the collection spares what lies at the next id.
    pub open_lsm-torn_commit :
        (s : Lsm) (m : Contents) (ids : List ℕ) (n : ℕ)
        → Reach crc32 crc_u32 fb capacity s m
        → Flushable crc32 crc_u32 fb capacity s
        → n < length (frame crc32 edit_codec (pending_edit s))
        → (s' : Lsm) × (open_lsm crc32 fb s.config
              (with_sealed s).tables
              ids
              (torn_dir crc32 crc_u32 (pending_edit s) n s.manifest)
              s.mem.journal.file.bytes
              capacity
            ≡ some (ok s'))
          × ((key : List ℕ) → get crc32 fb key s' ≡ some (ok (m key)))
          × (s'.tables s.manifest.version.next_sst_id
              ≡ some (sealed_file crc32 crc_u32 fb capacity s))
    open_lsm-torn_commit s m ids n r f cut =
        let inv = Reach-Inv crc32 crc_u32 fb capacity finds s m r in
        let sealed =
          stopped_writing-Inv crc32 crc_u32 fb capacity s m
            (sealed_file crc32 crc_u32 fb capacity s) inv in
        let reopened = reopened_lsm-Inv crc32 crc_u32 fb capacity (with_sealed s) m ids sealed in
        (
          torn_lsm n ids s,
          open_lsm-torn s m ids n inv f cut,
          λ key. get-torn n ids s key ∙ get-Inv crc32 crc_u32 fb capacity _ m key reopened,
          torn-tables n ids s,
        )
