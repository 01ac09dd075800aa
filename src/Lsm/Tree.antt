-- ===== src/Lsm/Tree.antt =====
-- crates/lsm/src/lib.rs, `Lsm` over the B-tree memtable: writes, flushes and reads. The directory of
-- table files is a function from their ids; `none` as an answer is a panic of the memtable's scan.
-- Calls of the operating system succeed.
pub mod Memory
pub mod Layers
pub mod Reach
pub mod Refinement
pub mod Torn
mod Examples
use mathlib.Core.List.{reverse}
use Prim.Native.Nat.{max}
use strata_db.Prelude.{
  ℕ, zero, suc, ◌+◌, ◌%◌, ◌^◌, List, [], ◌∷◌, ◌++◌, map, Option, none, some, Bool, not, ◌==◌,
  if◌then◌else◌, Result, ok, err, and_then, length, Ordering,
}
use strata_db.Lsm.Error.{WriteError, LsmError, from_write_error}
use strata_db.Lsm.Key.{OpType, put, delete, KeyValue, cmp_key}
use strata_db.Lsm.Memtable.{
  Bound, included, excluded, unbounded, BTreeMemtable, with_capacity, u64_max, scan_at,
}
use strata_db.Lsm.Journaled.{Journaled, open_journaled, put_logged, clear_logged}
use strata_db.Lsm.Journaled.Store.{btree}
use strata_db.Lsm.Manifest.{
  RunDescriptor, ManifestEdit, add_run, set_next_sst_id, set_last_seq, runs_in,
}
use strata_db.Lsm.Manifest.Manager.{
  ManifestDir, ManifestManager, open_manifest, commit, garbage_collect, member,
}
use strata_db.Lsm.Manifest.Manager
use strata_db.Lsm.Merge.{new, collect}
use strata_db.Lsm.Resolve.{resolve, resolve_versions}
use strata_db.Lsm.Overlap.{overlaps}
use strata_db.Lsm.Table.Bloom.{FastBloom}
use strata_db.Lsm.Table.Write.{TableConfig, write_table}
use strata_db.Lsm.Table.Read
use strata_db.Lsm.Table.Read.{SsTable, open_table}

-- `TableConfig::default()`
abbrev pub default_table : TableConfig
default_table = record { bits_per_key = 10; page_size_bytes = 4096; blocks_per_chunk = 256 }

-- The table settings of each level: `LsmConfig::levels`.
abbrev pub LsmConfig : Type 0
LsmConfig = List TableConfig

abbrev pub first_table : LsmConfig → TableConfig
first_table [] = default_table
first_table (t ∷ levels) = t

-- The directory of the tables.
abbrev pub Tables : Type 0
Tables = ℕ → Option (List ℕ)

abbrev pub with_table : ℕ → List ℕ → Tables → Tables
with_table id bytes tables = λ n. if n == id then some bytes else tables n

pub record Lsm : Type 0 where
  pub config : LsmConfig
  pub tables : Tables
  pub mem : Journaled BTreeMemtable
  pub manifest : ManifestManager
  pub seq : ℕ

-- `File::open` and `SsTable::open`
unfoldable pub open_id : Tables → ℕ → Result LsmError (List ℕ × SsTable)
open_id tables id = elim (tables id) [
  | none ↦ err LsmError.internal
  | some file ↦ and_then (open_table file) (λ table. ok (file, table))
]

unfoldable pub max_of : List KeyValue → ℕ
max_of [] = 0
max_of (kv ∷ l) = max kv.key.seq (max_of l)

module _ (crc32 : List ℕ → ℕ) (fb : FastBloom) where
  -- `write`
  unfoldable pub write : OpType → List ℕ → List ℕ → Lsm → Result LsmError Unit × Lsm
  write op key value s =
      let seq = (s.seq + 1) % 2 ^ 64 in
      let kv : KeyValue = record {
        key = record { user_key = key; seq = seq; op = op };
        value = value;
      } in
      let (answer, mem) = put_logged crc32 btree kv s.mem in
      elim answer [
        | err e ↦ (err (from_write_error e), record s { mem = mem })
        | ok done ↦ (ok tt, record s { mem = mem; seq = seq })
      ]

  -- The edit that a flush commits.
  abbrev pub flush_edit : ℕ → ℕ → ManifestEdit
  flush_edit id seq =
      add_run (record { level = 0; run = id; files = id ∷ [] })
      ∷ (set_next_sst_id ((id + 1) % 2 ^ 64) ∷ (set_last_seq seq ∷ []))

  -- `flush`, with entries to seal.
  unfoldable pub seal : List KeyValue → Lsm → Lsm
  seal entries s =
      let id = s.manifest.version.next_sst_id in
      record s {
        tables = with_table id (write_table fb (first_table s.config) id entries) s.tables;
        manifest = commit crc32 (flush_edit id s.seq) s.manifest;
        mem = clear_logged crc32 btree s.mem;
      }

  -- `flush`
  unfoldable pub flush : Lsm → Option Lsm
  unfolding seal
  flush s = elim (scan_at unbounded unbounded u64_max s.mem.inner) [
    | none ↦ none
    | some [] ↦ some s
    | some (kv ∷ entries) ↦ some (seal (kv ∷ entries) s)
  ]

  -- `checkpoint`
  unfoldable pub checkpoint : Lsm → Result LsmError Lsm
  checkpoint s =
      and_then (Manager.checkpoint crc32 s.manifest) (λ m. ok (record s { manifest = m }))

  -- The files of a run, until one holds the key.
  unfoldable pub search_files : Tables → List ℕ → ℕ → List ℕ → Result LsmError (Option KeyValue)
  unfolding open_id
  search_files tables key max_seq [] = ok none
  search_files tables key max_seq (id ∷ ids) = and_then (open_id tables id) (λ opened.
      and_then (Read.get fb opened.0 opened.1 key max_seq) (λ found. elim found [
        | some kv ↦ ok (some kv)
        | none ↦ search_files tables key max_seq ids
      ]))

  unfoldable pub search_runs :
      Tables → List ℕ → ℕ → List RunDescriptor → Result LsmError (Option KeyValue)
  unfolding search_files
  search_runs tables key max_seq [] = ok none
  search_runs tables key max_seq (r ∷ rs) =
      and_then (search_files tables key max_seq r.files)
        (λ found. elim found [ some kv ↦ ok (some kv) | none ↦ search_runs tables key max_seq rs ])

  -- `count` levels from `level` on, the newest run of each first.
  unfoldable pub search_levels :
      ℕ → ℕ → Tables → List ℕ → ℕ → List RunDescriptor → Result LsmError (Option KeyValue)
  unfolding search_runs
  search_levels zero level tables key max_seq runs = ok none
  search_levels (suc count) level tables key max_seq runs =
      and_then (search_runs tables key max_seq (reverse (runs_in level runs))) (λ found.
        elim found [
          | some kv ↦ ok (some kv)
          | none ↦ search_levels count (level + 1) tables key max_seq runs
        ])

  abbrev pub resolve_found : Option KeyValue → Option (List ℕ)
  resolve_found none = none
  resolve_found (some kv) = resolve kv.key.op kv.value

  -- `get_at`
  unfoldable pub get_at : List ℕ → ℕ → Lsm → Option (Result LsmError (Option (List ℕ)))
  unfolding search_levels
  get_at key max_seq s = elim (scan_at (included key) (included key) max_seq s.mem.inner) [
    | none ↦ none
    | some (kv ∷ rest) ↦ some (ok (resolve kv.key.op kv.value))
    | some [] ↦ some (
        and_then (search_levels (length s.config) 0 s.tables key max_seq s.manifest.version.runs)
          (λ found. ok (resolve_found found)))
  ]

  -- `get`
  unfoldable pub get : List ℕ → Lsm → Option (Result LsmError (Option (List ℕ)))
  unfolding get_at
  get key s = get_at key s.seq s

  -- The tables that `garbage_collect` leaves.
  abbrev pub swept : ManifestManager → List ℕ → Tables → Tables
  swept manifest ids tables =
      λ n. if member n (garbage_collect manifest.version ids).0 then none else tables n

  -- `with_memtable`, behind the opens: the sequence number goes on behind what was flushed and what
  -- was recovered, and tables that no run refers to are deleted.
  unfoldable pub resume :
      LsmConfig → Tables → List ℕ → ManifestManager → Journaled BTreeMemtable → Option Lsm
  unfolding max_of
  resume config tables ids manifest mem = elim (scan_at unbounded unbounded u64_max mem.inner) [
    | none ↦ none
    | some entries ↦ some (record {
      config = config;
      tables = swept manifest ids tables;
      mem = mem;
      manifest = manifest;
      seq = max manifest.version.last_seq (max_of entries);
    })
  ]

  -- `with_memtable` on the manifest's directory, the memtable's journal and the tables, with `ids`
  -- the tables that the directory lists.
  unfoldable pub open_lsm :
      LsmConfig → Tables → List ℕ → ManifestDir → List ℕ → ℕ → Option (Result LsmError Lsm)
  unfolding resume
  open_lsm config tables ids dir disk capacity = elim (open_manifest crc32 dir) [
    | err e ↦ some (err e)
    | ok manifest ↦ elim (open_journaled crc32 btree disk (with_capacity capacity)) [
      | err e ↦ some (err (from_write_error e))
      | ok mem ↦ elim (resume config tables ids manifest mem) [ none ↦ none | some s ↦ some (ok s) ]
    ]
  ]
