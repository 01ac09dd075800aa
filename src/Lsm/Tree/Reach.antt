-- ===== src/Lsm/Tree/Reach.antt =====
-- The trees that opens, writes, flushes and some crashes lead to, with the map that a client has written.
pub mod Write
pub mod Flush
pub mod Reopen
use mathlib.Core.List.{reverse}
use Prim.Native.Nat.{max}
use strata_db.Prelude.{
  ℕ, ◌+◌, ◌^◌, ◌≤◌, ◌<◌, ◌≡◌, List, [], ◌∷◌, ◌++◌, length, Option, none, some, All, Result, ok, err,
  if◌then◌else◌,
}
use strata_db.Lsm.Key.{OpType, KeyValue, bytes_eq}
use strata_db.Lsm.Data.RoundTrip.{FitsEntry}
use strata_db.Lsm.Resolve.{resolve}
use strata_db.Lsm.Resolve.Newest.{newest, visible}
use strata_db.Lsm.Memtable.{BTreeMemtable, with_capacity}
use strata_db.Lsm.Memtable.Insert.{Ordered}
use strata_db.Lsm.Journaled.Store.{btree, btree-Clears}
use strata_db.Lsm.Journaled.Recovery.{FitsRecord}
use strata_db.Lsm.Journaled.Recovery
use strata_db.Lsm.Manifest.{ManifestEdit, to_snapshot}
use strata_db.Lsm.Manifest.Manager.{commit}
use strata_db.Lsm.Manifest.Manager
use strata_db.Lsm.Manifest.Manager.Recovery.{FitsEdit, empty_dir}
use strata_db.Lsm.Table.Bloom.{FastBloom}
use strata_db.Lsm.Table.Write.{write_table}
use strata_db.Lsm.Table.Holds.Written.{Writable}
use strata_db.Lsm.Table.Read.Covering.{or_else}
use strata_db.Lsm.Tree.{
  LsmConfig, first_table, with_table, Lsm, write, flush_edit, flush, checkpoint, open_lsm, max_of,
}
use strata_db.Lsm.Tree.Layers.{Layers, newest_in}

-- What a client has written: the value of each key, `none` where it is absent or deleted.
abbrev pub Contents : Type 0
Contents = List ℕ → Option (List ℕ)

unfoldable pub updated : List ℕ → Option (List ℕ) → Contents → Contents
updated key value m = λ k. if bytes_eq key k then value else m k

-- The record that a write makes.
unfoldable pub record_of : OpType → List ℕ → List ℕ → ℕ → KeyValue
record_of op key value seq = record {
  key = record { user_key = key; seq = seq; op = op };
  value = value;
}

module _ (crc32 : List ℕ → ℕ) (crc_u32 : (p : List ℕ) → crc32 p < 2 ^ 32) (fb : FastBloom)
    (capacity : ℕ) where
  -- A flush that fits the format.
  pub record Flushable (s : Lsm) : Type 0 where
    pub table : Writable fb (first_table s.config) s.manifest.version.next_sst_id s.mem.inner.store
    pub next : s.manifest.version.next_sst_id + 1 < 2 ^ 64
    pub edit : FitsEdit (flush_edit crc32 fb s.manifest.version.next_sst_id s.seq)

  -- The disk when a flush stops behind its commit.
  abbrev pub sealed_file : Lsm → List ℕ
  sealed_file s =
      write_table fb (first_table s.config) s.manifest.version.next_sst_id s.mem.inner.store

  abbrev pub committed_only : Lsm → Lsm
  committed_only s = record s {
    tables = with_table s.manifest.version.next_sst_id (sealed_file s) s.tables;
    manifest = commit crc32 (flush_edit crc32 fb s.manifest.version.next_sst_id s.seq) s.manifest;
  }

  -- A tree that a step leads to from an empty directory, and what the accepted writes come to. Two
  -- crashes are steps: one while a flush writes its table, and one between its commit and its clear.
  -- Only an open follows them in a program, but the other steps are allowed as well. A crash within
  -- an append to the manifest or to the memtable's journal is no step here: what is appended behind
  -- its torn frame may be lost.
  pub data Reach : Lsm → Contents → Type 0 where
    started :
        {s : Lsm} (config : LsmConfig)
        → 1 ≤ length config
        → open_lsm crc32 fb config (λ n. none) [] empty_dir [] capacity ≡ some (ok s)
        → Reach s (λ k. none)
    wrote :
        {s s' : Lsm} {m : Contents} (op : OpType) (key value : List ℕ)
        → Reach s m
        → s.seq + 1 < 2 ^ 64
        → FitsRecord (record_of op key value (s.seq + 1))
        → write crc32 fb op key value s ≡ (ok tt, s')
        → Reach s' (updated key (resolve op value) m)
    flushed :
        {s s' : Lsm} {m : Contents}
        → Reach s m
        → Flushable s
        → flush crc32 fb s ≡ some s'
        → Reach s' m
    checkpointed :
        {s s' : Lsm} {m : Contents}
        → Reach s m
        → FitsEdit (to_snapshot s.manifest.version)
        → checkpoint crc32 fb s ≡ ok s'
        → Reach s' m
    -- A crash while the table is written: any bytes stand in its file.
    stopped_writing :
        {s : Lsm} {m : Contents} (bytes : List ℕ)
        → Reach s m
        → Reach (record s { tables = with_table s.manifest.version.next_sst_id bytes s.tables }) m
    -- A crash between the commit and the clear.
    stopped_clearing :
        {s : Lsm} {m : Contents} → Reach s m → Flushable s → Reach (committed_only s) m
    reopened :
        {s s' : Lsm} {m : Contents} (ids : List ℕ)
        → Reach s m
        → open_lsm crc32 fb s.config s.tables ids s.manifest.dir s.mem.journal.file.bytes capacity
          ≡ some (ok s')
        → Reach s' m

  -- What holds of all of them.
  pub record Inv (s : Lsm) (m : Contents) : Type 0 where
    pub log : List KeyValue
    pub mem_reach :
        Recovery.Reach crc32 crc_u32 btree
          (with_capacity capacity)
          (btree-Clears capacity)
          s.mem
          log
    pub edits : List ManifestEdit
    pub manifest_reach : Manager.Recovery.Reach crc32 crc_u32 s.manifest edits
    pub levels : 1 ≤ length s.config
    pub ordered : Ordered s.mem.inner.store
    pub fits : All FitsEntry s.mem.inner.store
    pub seqs : All (λ kv. kv.key.seq ≤ s.seq) s.mem.inner.store
    pub resumes : s.seq ≡ max s.manifest.version.last_seq (max_of s.mem.inner.store)
    pub flat : All (λ r. r.level ≡ 0) s.manifest.version.runs
    pub layers : List (List KeyValue)
    pub stacked :
        Layers fb s.tables s.manifest.version.next_sst_id (reverse s.manifest.version.runs) layers
    pub old : All (All (λ kv. kv.key.seq ≤ s.seq)) layers
    pub agrees :
        (k : List ℕ) → m k ≡ visible (or_else (newest k s.mem.inner.store) (newest_in k layers))
