-- ===== src/Lsm/Tree/Refinement.antt =====
-- The tree against the map that its client has written.
use mathlib.Core.Path.{subst}
use mathlib.Core.List.{reverse}
use Prim.Native.Nat.{max}
use strata_db.Prelude.{
  ℕ, ◌^◌, ◌≤◌, ◌<◌, ◌≡◌, refl, sym, ap, ◌∙◌, inl, inr, List, [], ◌∷◌, length, Option, none, some,
  All, Result, ok, Result-cases, arith,
}
use strata_db.Lsm.Key.{KeyValue}
use strata_db.Lsm.Error.{LsmError}
use strata_db.Lsm.Resolve.Newest.{newest, visible}
use strata_db.Lsm.Memtable.{BTreeMemtable, included, scan_at, with_capacity}
use strata_db.Lsm.Memtable.Insert.{Ordered}
use strata_db.Lsm.Journaled.{Journaled}
use strata_db.Lsm.Journaled.Store.{btree, btree-Clears}
use strata_db.Lsm.Journaled.Recovery.{open_journaled-empty}
use strata_db.Lsm.Journaled.Recovery
use strata_db.Lsm.Manifest.{to_snapshot}
use strata_db.Lsm.Manifest.Manager.{ManifestManager}
use strata_db.Lsm.Manifest.Manager
use strata_db.Lsm.Manifest.Manager.Recovery.{
  FitsEdit, empty_dir, manifest_recovers, open_manifest-empty,
}
use strata_db.Lsm.Table.Bloom.{FastBloom, FindsInserted}
use strata_db.Lsm.Table.Read.Covering.{or_else}
use strata_db.Lsm.Tree.{
  Lsm, LsmConfig, with_table, search_levels, get, get_at, open_lsm, checkpoint, swept, max_of,
}
use strata_db.Lsm.Tree.Memory.{head_of, scan_at-head, scan_at-everything}
use strata_db.Lsm.Tree.Layers.{Layers, newest_in, search_levels-Layers, Layers-with_table}
use strata_db.Lsm.Tree.Reach.{Contents, Reach, Inv}
use strata_db.Lsm.Tree.Reach.Write.{wrote-Inv}
use strata_db.Lsm.Tree.Reach.Flush.{wide_seqs, flushed-Inv, committed_only-Inv}
use strata_db.Lsm.Tree.Reach.Reopen.{open_lsm-eq, open_lsm-Inv, reopened_lsm, reopened_lsm-Inv}

module _ (crc32 : List ℕ → ℕ) (crc_u32 : (p : List ℕ) → crc32 p < 2 ^ 32) (fb : FastBloom)
    (capacity : ℕ) where
  get_at-answer :
      (key : List ℕ) (max_seq : ℕ) (s : Lsm) (l : List KeyValue) (deeper : Option KeyValue)
      → scan_at (included key) (included key) max_seq s.mem.inner ≡ some l
      → search_levels crc32 fb (length s.config) 0 s.tables key max_seq s.manifest.version.runs
        ≡ ok deeper
      → get_at crc32 fb key max_seq s ≡ some (ok (visible (or_else (head_of l) deeper)))
  unfolding get_at visible
  get_at-answer key max_seq s [] none scanned deep = rw (scanned, get_at) (rw (deep, get_at) refl)
  get_at-answer key max_seq s [] (some kv) scanned deep =
      rw (scanned, get_at) (rw (deep, get_at) refl)
  get_at-answer key max_seq s (kv ∷ l) deeper scanned deep = rw (scanned, get_at) refl

  pub get-Inv :
      (s : Lsm) (m : Contents) (key : List ℕ)
      → Inv crc32 crc_u32 fb capacity s m
      → get crc32 fb key s ≡ some (ok (m key))
  unfolding get
  get-Inv s m key inv =
      let (l, scanned, first) =
        scan_at-head key s.seq s.mem.inner inv.ordered inv.seqs
          (wide_seqs s.mem.inner.store inv.fits) in
      let deep =
        search_levels-Layers crc32 fb (length s.config) s.tables s.manifest.version.next_sst_id key
          s.seq s.manifest.version.runs inv.layers inv.levels inv.flat inv.stacked inv.old in
      get_at-answer key s.seq s l (newest_in key inv.layers) scanned deep
      ∙ ap (λ o. some (ok (visible (or_else o (newest_in key inv.layers))))) first
      ∙ ap (λ v. some (ok v)) (sym (inv.agrees key))

  Inv-eq :
      (s s' : Lsm) (m : Contents) (r : Option (Result LsmError Lsm))
      → r ≡ some (ok s)
      → r ≡ some (ok s')
      → Inv crc32 crc_u32 fb capacity s m
      → Inv crc32 crc_u32 fb capacity s' m
  Inv-eq s s' m r e e' inv =
      let same : s ≡ s' = cc in subst (λ t. Inv crc32 crc_u32 fb capacity t m) same inv

  unfoldable pub start_mem : Journaled BTreeMemtable
  start_mem = Recovery.start crc32 crc_u32 btree (with_capacity capacity) (btree-Clears capacity)

  unfoldable pub fresh_lsm : LsmConfig → Lsm
  fresh_lsm config = record {
    config = config;
    tables = swept crc32 fb (Manager.Recovery.start crc32 crc_u32) [] (λ n. none);
    mem = start_mem;
    manifest = Manager.Recovery.start crc32 crc_u32;
    seq = 0;
  }

  pub open_lsm-empty :
      (config : LsmConfig)
      → open_lsm crc32 fb config (λ n. none) [] empty_dir [] capacity ≡ some (ok (fresh_lsm config))
  unfolding fresh_lsm start_mem Recovery.start Manager.Recovery.start with_capacity max_of
  open_lsm-empty config =
      open_lsm-eq crc32 crc_u32 fb capacity config (λ n. none) [] empty_dir []
        (Manager.Recovery.start crc32 crc_u32) start_mem [] (open_manifest-empty crc32 crc_u32)
        (open_journaled-empty crc32 crc_u32 btree (with_capacity capacity) (btree-Clears capacity))
        (scan_at-everything start_mem.inner tt)

  fresh_lsm-Inv :
      (config : LsmConfig)
      → 1 ≤ length config
      → Inv crc32 crc_u32 fb capacity (fresh_lsm config) (λ k. none)
  unfolding fresh_lsm start_mem Recovery.start Manager.Recovery.start with_capacity max_of Ordered
      visible newest
  fresh_lsm-Inv config levels = record {
    log = [];
    mem_reach =
        Recovery.Reach.started start_mem (
          open_journaled-empty crc32 crc_u32 btree (with_capacity capacity)
            (btree-Clears capacity));
    edits = [];
    manifest_reach = Manager.Recovery.Reach.started (open_manifest-empty crc32 crc_u32);
    levels = levels;
    ordered = tt;
    fits = tt;
    seqs = tt;
    resumes = omega arith;
    flat = tt;
    layers = [];
    stacked = tt;
    old = tt;
    agrees = λ k. refl;
  }

  -- A checkpoint changes the form of the manifest alone.
  checkpointed-Inv :
      (s s' : Lsm) (m : Contents)
      → Inv crc32 crc_u32 fb capacity s m
      → FitsEdit (to_snapshot s.manifest.version)
      → checkpoint crc32 fb s ≡ ok s'
      → Inv crc32 crc_u32 fb capacity s' m
  unfolding checkpoint
  checkpointed-Inv s s' m inv fits e = elim (Result-cases (Manager.checkpoint crc32 s.manifest)) [
    | inr (x, failed) ↦ let h = (rw failed at e) in cc
    | inl (manifest, done) ↦
        let reach = Manager.Recovery.Reach.checkpointed inv.manifest_reach fits done in
        let same : s.manifest.version ≡ manifest.version =
          (manifest_recovers crc32 crc_u32 inv.manifest_reach).0
          ∙ sym (manifest_recovers crc32 crc_u32 reach).0 in
        let result : ok (record s { manifest = manifest }) ≡ ok s' = (rw done at e) in
        let here : record s { manifest = manifest } ≡ s' = cc in
        subst (λ t. Inv crc32 crc_u32 fb capacity t m) here
          (record {
            log = inv.log;
            mem_reach = inv.mem_reach;
            edits = inv.edits;
            manifest_reach = reach;
            levels = inv.levels;
            ordered = inv.ordered;
            fits = inv.fits;
            seqs = inv.seqs;
            resumes =
                subst (λ v. s.seq ≡ max v.last_seq (max_of s.mem.inner.store)) same inv.resumes;
            flat = subst (λ v. All (λ r. r.level ≡ 0) v.runs) same inv.flat;
            layers = inv.layers;
            stacked =
                subst (λ v. Layers fb s.tables v.next_sst_id (reverse v.runs) inv.layers) same
                  inv.stacked;
            old = inv.old;
            agrees = inv.agrees;
          })
  ]

  pub stopped_writing-Inv :
      (s : Lsm) (m : Contents) (bytes : List ℕ)
      → Inv crc32 crc_u32 fb capacity s m
      → Inv crc32 crc_u32 fb capacity
          (record s { tables = with_table s.manifest.version.next_sst_id bytes s.tables })
          m
  stopped_writing-Inv s m bytes inv = record {
    log = inv.log;
    mem_reach = inv.mem_reach;
    edits = inv.edits;
    manifest_reach = inv.manifest_reach;
    levels = inv.levels;
    ordered = inv.ordered;
    fits = inv.fits;
    seqs = inv.seqs;
    resumes = inv.resumes;
    flat = inv.flat;
    layers = inv.layers;
    stacked =
        Layers-with_table crc32 fb s.tables s.manifest.version.next_sst_id
          s.manifest.version.next_sst_id bytes (reverse s.manifest.version.runs) inv.layers
          (omega arith) inv.stacked;
    old = inv.old;
    agrees = inv.agrees;
  }

  module _ (finds : FindsInserted fb) where
    pub Reach-Inv :
        (s : Lsm) (m : Contents)
        → Reach crc32 crc_u32 fb capacity s m
        → Inv crc32 crc_u32 fb capacity s m
    Reach-Inv s _ (Reach.started config levels e) =
        Inv-eq (fresh_lsm config) s (λ k. none) _ (open_lsm-empty config) e
          (fresh_lsm-Inv config levels)
    Reach-Inv s' _ (Reach.wrote {s = s} {m = m} op key value r small fits e) =
        wrote-Inv crc32 crc_u32 fb capacity op key value s s' m (Reach-Inv s m r) small fits e
    Reach-Inv s' m (Reach.flushed {s = s} r f e) =
        flushed-Inv crc32 crc_u32 fb capacity finds s s' m (Reach-Inv s m r) f e
    Reach-Inv s' m (Reach.checkpointed {s = s} r fits e) =
        checkpointed-Inv s s' m (Reach-Inv s m r) fits e
    Reach-Inv _ m (Reach.stopped_writing {s = s} bytes r) =
        stopped_writing-Inv s m bytes (Reach-Inv s m r)
    Reach-Inv _ m (Reach.stopped_clearing {s = s} r f) =
        committed_only-Inv crc32 crc_u32 fb capacity finds s m (Reach-Inv s m r) f
    Reach-Inv s' m (Reach.reopened {s = s} ids r e) =
        let inv = Reach-Inv s m r in
        Inv-eq (reopened_lsm crc32 crc_u32 fb capacity ids s) s' m _
          (open_lsm-Inv crc32 crc_u32 fb capacity s m ids inv) e
          (reopened_lsm-Inv crc32 crc_u32 fb capacity s m ids inv)

    -- However opens, accepted puts and deletes, flushes, checkpoints, crashes while a flush writes
    -- its table and crashes between its commit and its clear follow one another from an empty
    -- directory, with at least one configured level, records, tables and edits that fit their
    -- fields and a filter that finds what was inserted, a lookup answers without an error with the
    -- value last written to the key, and with none where it was never written or was deleted.
    pub get-Reach :
        (s : Lsm) (m : Contents) (key : List ℕ)
        → Reach crc32 crc_u32 fb capacity s m
        → get crc32 fb key s ≡ some (ok (m key))
    get-Reach s m key r = get-Inv s m key (Reach-Inv s m r)

    -- Under the same conditions, whatever tables the directory lists, opening the tree again always
    -- succeeds, also after a crash between the steps of a flush: memtable, manifest and sequence
    -- number are as they were, and every lookup gives the value last written.
    pub open_lsm-Reach :
        (s : Lsm) (m : Contents) (ids : List ℕ)
        → Reach crc32 crc_u32 fb capacity s m
        → (s' : Lsm) × (open_lsm crc32 fb s.config s.tables ids s.manifest.dir
              s.mem.journal.file.bytes capacity
            ≡ some (ok s'))
          × (s'.mem ≡ s.mem)
          × (s'.manifest ≡ s.manifest)
          × (s'.seq ≡ s.seq)
          × ((key : List ℕ) → get crc32 fb key s' ≡ some (ok (m key)))
    open_lsm-Reach s m ids r =
        let inv = Reach-Inv s m r in
        let opened = open_lsm-Inv crc32 crc_u32 fb capacity s m ids inv in
        (
          reopened_lsm crc32 crc_u32 fb capacity ids s,
          opened,
          refl,
          refl,
          refl,
          λ key. get-Reach _ m key (Reach.reopened ids r opened),
        )
