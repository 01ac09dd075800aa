-- ===== src/Lsm/Table/Holds/Lookup.antt =====
-- A table that was written, opened and read: what comes back.
use strata_db.Prelude.{ℕ, ◌≤◌, ◌≡◌, ap, ◌∙◌, List, map, All, ok, and_then}
use strata_db.Lsm.Key.{KeyValue, cmp_kv}
use strata_db.Lsm.Memtable.{Bound, keep}
use strata_db.Lsm.Merge.Sorted.{Sorted}
use strata_db.Lsm.Resolve.Newest.{newest}
use strata_db.Lsm.Table.Bloom.{FastBloom, FindsInserted}
use strata_db.Lsm.Table.Write.{TableConfig, write_table}
use strata_db.Lsm.Table.Read.{open_table, get, in_scan, scan}
use strata_db.Lsm.Table.Holds.{get-Holds}
use strata_db.Lsm.Table.Holds.Written.{Writable, write_table-OnDisk}
use strata_db.Lsm.Table.Holds.Scanned.{scan-Holds}

module _ (fb : FastBloom) (finds : FindsInserted fb) where
  -- A table written from sorted entries that fit the format opens, and a lookup as of a sequence
  -- number that none of them exceeds finds the newest version of the key, or nothing where there is
  -- none, through the range, the filter, the index and its shards.
  pub get-write_table :
      (config : TableConfig) (sst_id : ℕ) (entries : List KeyValue) (key : List ℕ) (max_seq : ℕ)
      → Sorted cmp_kv entries
      → Writable fb config sst_id entries
      → All (λ kv. kv.key.seq ≤ max_seq) entries
      → and_then
          (open_table (write_table fb config sst_id entries))
          (λ table. get fb (write_table fb config sst_id entries) table key max_seq)
        ≡ ok (newest key entries)
  get-write_table config sst_id entries key max_seq sorted w old =
      let d = write_table-OnDisk fb finds config sst_id entries sorted w in
      let file = write_table fb config sst_id entries in
      ap (λ r. and_then r (λ table. get fb file table key max_seq)) d.opens
      ∙ get-Holds fb file entries d.table key max_seq d.holds old

  -- A table written from sorted entries that fit the format opens, and a scan of it yields, in
  -- order and without an error, exactly the entries within the bounds that are not newer than the
  -- sequence number.
  pub scan-write_table :
      (config : TableConfig) (sst_id : ℕ) (entries : List KeyValue) (start end_ : Bound (List ℕ))
      (max_seq : ℕ)
      → Sorted cmp_kv entries
      → Writable fb config sst_id entries
      → and_then
          (open_table (write_table fb config sst_id entries))
          (λ table. ok (scan (write_table fb config sst_id entries) table start end_ max_seq))
        ≡ ok (map ok (keep (in_scan start end_ max_seq) entries))
  scan-write_table config sst_id entries start end_ max_seq sorted w =
      let d = write_table-OnDisk fb finds config sst_id entries sorted w in
      let file = write_table fb config sst_id entries in
      ap (λ r. and_then r (λ table. ok (scan file table start end_ max_seq))) d.opens
      ∙ ap ok (scan-Holds file start end_ max_seq fb entries d.table d.holds)
