-- ===== src/Lsm/Tree/Reach/Reopen.antt =====
-- Opening a tree again: it goes on where it was, with the tables that its runs refer to.
use mathlib.Core.Path.{subst}
use mathlib.Core.List.{reverse, reverse-cons, flat_map}
use Prim.Native.Nat.{max}
use strata_db.Prelude.{
  ℕ, ◌^◌, ◌<◌, ◌≡◌, refl, sym, ap, ◌∙◌, List, [], ◌∷◌, ◌++◌, some, true, ◌||◌, All, All-map,
  All-append, ==_iff, ok, arith,
}
use strata_db.Lsm.Key.{KeyValue}
use strata_db.Lsm.Memtable.{BTreeMemtable, u64_max, unbounded, scan_at, with_capacity}
use strata_db.Lsm.Journaled.{Journaled, open_journaled}
use strata_db.Lsm.Journaled.Store.{btree, btree-Clears}
use strata_db.Lsm.Journaled.Recovery.{journaled_recovers}
use strata_db.Lsm.Manifest.{RunDescriptor, live_files}
use strata_db.Lsm.Manifest.Manager.{ManifestDir, ManifestManager, member, garbage_collect}
use strata_db.Lsm.Manifest.Manager
use strata_db.Lsm.Manifest.Manager.Collect.{live_stays}
use strata_db.Lsm.Manifest.Manager.Recovery.{manifest_recovers}
use strata_db.Lsm.Table.Bloom.{FastBloom}
use strata_db.Lsm.Tree.{Lsm, LsmConfig, Tables, swept, resume, open_lsm, max_of}
use strata_db.Lsm.Tree.Memory.{scan_at-everything}
use strata_db.Lsm.Tree.Layers.{Layers}
use strata_db.Lsm.Tree.Reach.{Contents, Inv}
use strata_db.Lsm.Tree.Reach.Flush.{wide_seqs}

member-append : (id : ℕ) (xs ys : List ℕ) → member id (xs ++ ys) ≡ (member id xs || member id ys)
member-append id [] ys = refl
member-append id (x ∷ xs) ys = ground (arith, member-append id xs ys)

-- The file of a run of one file is live.
IsLive : List ℕ → RunDescriptor → Type 0
IsLive live r = (id : ℕ) → r.files ≡ id ∷ [] → member id live ≡ true

runs-IsLive : (rs : List RunDescriptor) → All (IsLive (flat_map (λ r. r.files) rs)) rs
unfolding IsLive flat_map
runs-IsLive [] = tt
runs-IsLive (r ∷ rs) =
    let rest = flat_map (λ (q : RunDescriptor). q.files) rs in
    (
      λ id one.
          member-append id r.files rest
          ∙ ap (λ fs. member id fs || member id rest) one
          ∙ (ground (arith, (==_iff id id).1 refl)),
      All-map (IsLive rest) (IsLive (r.files ++ rest))
          (λ q live id one. member-append id r.files rest ∙ (ground (arith, live id one))) rs
          (runs-IsLive rs),
    )

All-reverse : (P : RunDescriptor → Type 0) (rs : List RunDescriptor) → All P rs → All P (reverse rs)
All-reverse P [] h = tt
All-reverse P (r ∷ rs) h =
    subst (All P) (sym (reverse-cons r rs))
      (All-append P (reverse rs) (r ∷ []) (All-reverse P rs h.1) (h.0, tt))

module _ (crc32 : List ℕ → ℕ) (crc_u32 : (p : List ℕ) → crc32 p < 2 ^ 32) (fb : FastBloom)
    (capacity : ℕ) where
  Layers-swept :
      (s : Lsm) (ids : List ℕ) (rs : List RunDescriptor) (ls : List (List KeyValue))
      → All (IsLive (live_files s.manifest.version)) rs
      → Layers fb s.tables s.manifest.version.next_sst_id rs ls
      → Layers fb (swept crc32 fb s.manifest ids s.tables) s.manifest.version.next_sst_id rs ls
  unfolding IsLive
  Layers-swept s ids [] [] live h = tt
  Layers-swept s ids [] (l ∷ ls) live h = elim h [ ]
  Layers-swept s ids (r ∷ rs) [] live h = elim h [ ]
  Layers-swept s ids (r ∷ rs) (l ∷ ls) live h =
      let layer = h.0 in
      let v = s.manifest.version in
      let stays = live_stays v layer.id ids (live.0 layer.id layer.files) in
      (
        record {
          id = layer.id;
          files = layer.files;
          below = layer.below;
          file = layer.file;
          there = rw stays layer.there;
          disk = layer.disk;
        },
        Layers-swept s ids rs ls live.1 h.1,
      )

  resume-eq :
      (config : LsmConfig) (tables : Tables) (ids : List ℕ) (manifest : ManifestManager)
      (mem : Journaled BTreeMemtable) (entries : List KeyValue)
      → scan_at unbounded unbounded u64_max mem.inner ≡ some entries
      → resume crc32 fb config tables ids manifest mem
        ≡ some (record {
          config = config;
          tables = swept crc32 fb manifest ids tables;
          mem = mem;
          manifest = manifest;
          seq = max manifest.version.last_seq (max_of entries);
        })
  unfolding resume
  resume-eq config tables ids manifest mem entries e = rw (e, resume) refl

  -- An open that finds both logs in order.
  pub open_lsm-eq :
      (config : LsmConfig) (tables : Tables) (ids : List ℕ) (dir : ManifestDir) (disk : List ℕ)
      (manifest : ManifestManager) (mem : Journaled BTreeMemtable) (entries : List KeyValue)
      → Manager.open_manifest crc32 dir ≡ ok manifest
      → open_journaled crc32 btree disk (with_capacity capacity) ≡ ok mem
      → scan_at unbounded unbounded u64_max mem.inner ≡ some entries
      → open_lsm crc32 fb config tables ids dir disk capacity
        ≡ some (
            ok (record {
              config = config;
              tables = swept crc32 fb manifest ids tables;
              mem = mem;
              manifest = manifest;
              seq = max manifest.version.last_seq (max_of entries);
            }))
  unfolding open_lsm
  open_lsm-eq config tables ids dir disk manifest mem entries found replayed scanned =
      rw (found, open_lsm)
        (rw (replayed, open_lsm)
          (rw (resume-eq config tables ids manifest mem entries scanned) refl))

  abbrev pub reopened_lsm : List ℕ → Lsm → Lsm
  reopened_lsm ids s = record s { tables = swept crc32 fb s.manifest ids s.tables }

  pub open_lsm-Inv :
      (s : Lsm) (m : Contents) (ids : List ℕ)
      → Inv crc32 crc_u32 fb capacity s m
      → open_lsm crc32 fb s.config s.tables ids s.manifest.dir s.mem.journal.file.bytes capacity
        ≡ some (ok (reopened_lsm ids s))
  open_lsm-Inv s m ids inv =
      open_lsm-eq s.config s.tables ids s.manifest.dir s.mem.journal.file.bytes s.manifest s.mem
        s.mem.inner.store (manifest_recovers crc32 crc_u32 inv.manifest_reach).1
        (journaled_recovers crc32 crc_u32 btree (with_capacity capacity) (btree-Clears capacity)
          s.mem inv.log inv.mem_reach).1
        (scan_at-everything s.mem.inner (wide_seqs s.mem.inner.store inv.fits))
      ∙ ap (λ n. some (ok (record (reopened_lsm ids s) { seq = n }))) (sym inv.resumes)

  pub reopened_lsm-Inv :
      (s : Lsm) (m : Contents) (ids : List ℕ)
      → Inv crc32 crc_u32 fb capacity s m
      → Inv crc32 crc_u32 fb capacity (reopened_lsm ids s) m
  unfolding live_files
  reopened_lsm-Inv s m ids inv = record {
    log = inv.log;
    mem_reach = inv.mem_reach;
    edits = inv.edits;
    manifest_reach = inv.manifest_reach;
    levels = inv.levels;
    ordered = inv.ordered;
    fits = inv.fits;
    seqs = inv.seqs;
    resumes = inv.resumes;
    flat = inv.flat;
    layers = inv.layers;
    stacked =
        Layers-swept s ids (reverse s.manifest.version.runs) inv.layers
          (All-reverse (IsLive (live_files s.manifest.version)) s.manifest.version.runs
            (runs-IsLive s.manifest.version.runs))
          inv.stacked;
    old = inv.old;
    agrees = inv.agrees;
  }
