-- ===== src/Lsm/Tree/Reach/Flush.antt =====
-- A flush, whole or stopped half way, keeps the invariant of the tree.
use mathlib.Core.Path.{subst}
use mathlib.Core.List.{reverse, reverse-append}
use native.Mathlib.Nat.{mod-eq_of_lt}
use Prim.Native.Nat.{max}
use strata_db.Prelude.{
  ℕ, ◌+◌, ◌^◌, ◌≤◌, ◌<◌, ◌≡◌, refl, sym, ap, ◌∙◌, inl, inr, ◌⊎◌, List, [], ◌∷◌, ◌++◌, Option, none,
  some, All, All-map, All-append, ==_iff, arith,
}
use strata_db.Lsm.Key.{KeyValue}
use strata_db.Lsm.Data.RoundTrip.{FitsEntry}
use strata_db.Lsm.Resolve.Newest.{newest, visible}
use strata_db.Lsm.Memtable.{u64_max, clear}
use strata_db.Lsm.Memtable.Insert.{Ordered}
use strata_db.Lsm.Journaled.{clear_logged}
use strata_db.Lsm.Journaled.Recovery
use strata_db.Lsm.Manifest.{RunDescriptor, Version, apply, apply_op}
use strata_db.Lsm.Manifest.Manager.{ManifestManager, commit}
use strata_db.Lsm.Manifest.Manager
use strata_db.Lsm.Table.Bloom.{FastBloom, FindsInserted}
use strata_db.Lsm.Table.Holds.Written.{write_table-OnDisk}
use strata_db.Lsm.Table.Read.Covering.{or_else}
use strata_db.Lsm.Tree.{Lsm, Tables, first_table, with_table, flush_edit, seal, flush, max_of}
use strata_db.Lsm.Tree.Memory.{Ordered-Sorted, scan_at-everything}
use strata_db.Lsm.Tree.Layers.{Layers, newest_in, Layers-with_table}
use strata_db.Lsm.Tree.Reach.{Contents, Flushable, sealed_file, committed_only, Inv}
use strata_db.Lsm.Tree.Reach.Write.{max_of-le}

or_else-same : (a b : Option KeyValue) → or_else a (or_else a b) ≡ or_else a b
or_else-same none b = refl
or_else-same (some kv) b = refl

pub wide_seqs : (l : List KeyValue) → All FitsEntry l → All (λ kv. kv.key.seq ≤ u64_max) l
wide_seqs = All-map FitsEntry (λ kv. kv.key.seq ≤ u64_max) (λ kv f. omega (arith, f.seq))

module _ (crc32 : List ℕ → ℕ) (crc_u32 : (p : List ℕ) → crc32 p < 2 ^ 32) (fb : FastBloom)
    (capacity : ℕ) where
  flush-eq :
      (s s' : Lsm)
      → All FitsEntry s.mem.inner.store
      → flush crc32 fb s ≡ some s'
      → (s' ≡ s) ⊎ (s' ≡ seal crc32 fb s.mem.inner.store s)
  unfolding flush
  flush-eq s s' fits e =
      outcome s.mem.inner.store
        (sym (ap answer (scan_at-everything s.mem.inner (wide_seqs s.mem.inner.store fits))) ∙ e)
    where
      answer : Option (List KeyValue) → Option Lsm
      answer o = elim o [
        | none ↦ none
        | some [] ↦ some s
        | some (kv ∷ entries) ↦ some (seal crc32 fb (kv ∷ entries) s)
      ]

      outcome :
          (l : List KeyValue) → answer (some l) ≡ some s' → (s' ≡ s) ⊎ (s' ≡ seal crc32 fb l s)
      outcome [] h = inl (cc)
      outcome (kv ∷ l) h = inr (cc)

  abbrev flushed_run : Lsm → RunDescriptor
  flushed_run s = record {
    level = 0;
    run = s.manifest.version.next_sst_id;
    files = s.manifest.version.next_sst_id ∷ [];
  }

  abbrev flushed_version : Lsm → Version
  flushed_version s = record {
    runs = s.manifest.version.runs ++ (flushed_run s ∷ []);
    next_sst_id = s.manifest.version.next_sst_id + 1;
    last_seq = s.seq;
  }

  commit-version :
      (s : Lsm)
      → s.manifest.version.next_sst_id + 1 < 2 ^ 64
      → (commit crc32 (flush_edit crc32 fb s.manifest.version.next_sst_id s.seq) s.manifest).version
        ≡ flushed_version s
  unfolding commit apply apply_op
  commit-version s small =
      ap (λ n. record (flushed_version s) { next_sst_id = n }) (mod-eq_of_lt small)

  abbrev flushed_tables : Lsm → Tables
  flushed_tables s =
      with_table s.manifest.version.next_sst_id (sealed_file crc32 crc_u32 fb capacity s) s.tables

  module _ (finds : FindsInserted fb) where
    -- The memtable as a layer in front of the others.
    flushed-Layers :
        (s : Lsm) (m : Contents)
        → (inv : Inv crc32 crc_u32 fb capacity s m) → Flushable crc32 crc_u32 fb capacity s
        → Layers fb
            (flushed_tables s)
            (s.manifest.version.next_sst_id + 1)
            (reverse (s.manifest.version.runs ++ (flushed_run s ∷ [])))
            (s.mem.inner.store ∷ inv.layers)
    flushed-Layers s m inv f =
        let next = s.manifest.version.next_sst_id in
        subst (λ rs. Layers fb (flushed_tables s) (next + 1) rs (s.mem.inner.store ∷ inv.layers))
          (sym (reverse-append s.manifest.version.runs (flushed_run s ∷ [])))
          (
            record {
              id = next;
              files = refl;
              below = omega arith;
              file = sealed_file crc32 crc_u32 fb capacity s;
              there = rw ((==_iff next next).1 refl) refl;
              disk =
                  write_table-OnDisk fb finds (first_table s.config) next s.mem.inner.store
                    (Ordered-Sorted s.mem.inner.store inv.ordered) f.table;
            },
            Layers-with_table crc32 fb s.tables next (next + 1)
                (sealed_file crc32 crc_u32 fb capacity s) (reverse s.manifest.version.runs)
                inv.layers (omega arith) inv.stacked,
          )

    pub committed_only-Inv :
        (s : Lsm) (m : Contents)
        → Inv crc32 crc_u32 fb capacity s m
        → Flushable crc32 crc_u32 fb capacity s
        → Inv crc32 crc_u32 fb capacity (committed_only crc32 crc_u32 fb capacity s) m
    committed_only-Inv s m inv f =
        let version = sym (commit-version s f.next) in
        record {
          log = inv.log;
          mem_reach = inv.mem_reach;
          edits = inv.edits ++ (flush_edit crc32 fb s.manifest.version.next_sst_id s.seq ∷ []);
          manifest_reach = Manager.Recovery.Reach.committed _ inv.manifest_reach f.edit;
          levels = inv.levels;
          ordered = inv.ordered;
          fits = inv.fits;
          seqs = inv.seqs;
          resumes =
              subst (λ v. s.seq ≡ max v.last_seq (max_of s.mem.inner.store)) version
                (omega (arith, max_of-le s.seq s.mem.inner.store inv.seqs));
          flat =
              subst (λ v. All (λ r. r.level ≡ 0) v.runs) version
                (All-append (λ r. r.level ≡ 0) s.manifest.version.runs (flushed_run s ∷ []) inv.flat
                  (refl, tt));
          layers = s.mem.inner.store ∷ inv.layers;
          stacked =
              subst
                (λ v.
                  Layers fb (flushed_tables s) v.next_sst_id (reverse v.runs)
                    (s.mem.inner.store ∷ inv.layers))
                version (flushed-Layers s m inv f);
          old = (inv.seqs, inv.old);
          agrees = λ k.
              inv.agrees k
              ∙ ap visible
                  (sym (or_else-same (newest k s.mem.inner.store) (newest_in k inv.layers)));
        }

    sealed-Inv :
        (s : Lsm) (m : Contents)
        → Inv crc32 crc_u32 fb capacity s m
        → Flushable crc32 crc_u32 fb capacity s
        → Inv crc32 crc_u32 fb capacity (seal crc32 fb s.mem.inner.store s) m
    unfolding seal clear_logged clear Ordered max_of newest
    sealed-Inv s m inv f =
        let version = sym (commit-version s f.next) in
        record {
          log = [];
          mem_reach = Recovery.Reach.cleared s.mem inv.log inv.mem_reach;
          edits = inv.edits ++ (flush_edit crc32 fb s.manifest.version.next_sst_id s.seq ∷ []);
          manifest_reach = Manager.Recovery.Reach.committed _ inv.manifest_reach f.edit;
          levels = inv.levels;
          ordered = tt;
          fits = tt;
          seqs = tt;
          resumes = subst (λ v. s.seq ≡ max v.last_seq 0) version (omega arith);
          flat =
              subst (λ v. All (λ r. r.level ≡ 0) v.runs) version
                (All-append (λ r. r.level ≡ 0) s.manifest.version.runs (flushed_run s ∷ []) inv.flat
                  (refl, tt));
          layers = s.mem.inner.store ∷ inv.layers;
          stacked =
              subst
                (λ v.
                  Layers fb (flushed_tables s) v.next_sst_id (reverse v.runs)
                    (s.mem.inner.store ∷ inv.layers))
                version (flushed-Layers s m inv f);
          old = (inv.seqs, inv.old);
          agrees = inv.agrees;
        }

    pub flushed-Inv :
        (s s' : Lsm) (m : Contents)
        → Inv crc32 crc_u32 fb capacity s m
        → Flushable crc32 crc_u32 fb capacity s
        → flush crc32 fb s ≡ some s'
        → Inv crc32 crc_u32 fb capacity s' m
    flushed-Inv s s' m inv f e = elim (flush-eq s s' inv.fits e) [
      | inl same ↦ subst (λ t. Inv crc32 crc_u32 fb capacity t m) (sym same) inv
      | inr sealed ↦
          subst (λ t. Inv crc32 crc_u32 fb capacity t m) (sym sealed) (sealed-Inv s m inv f)
    ]
