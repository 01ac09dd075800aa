-- ===== src/Lsm/Table/Write.antt =====
-- crates/lsm/src/storage/sstable.rs, `SsTable::write`: the bytes of a whole table file.
pub mod Fits
pub mod Sharded
use Prim.Native.Nat.{max}
use strata_db.Prelude.{ℕ, ◌+◌, ◌%◌, ◌^◌, List, [], ◌∷◌, ◌++◌, map, length, leb, if◌then◌else◌}
use strata_db.Filesystem.Codec.{be_u32}
use strata_db.Lsm.Key.{KeyRange, KeyValue}
use strata_db.Lsm.Table.Header.{BlockMeta, Index, inline, sharded, Header, root, encode_header}
use strata_db.Lsm.Table.Bloom.{FastBloom, build_bloom}
use strata_db.Lsm.Table.Build.{build_blocks, chunks, first_min, last_max, append_shards}

-- `TableConfig`, what a table is built with of it.
pub record TableConfig : Type 0 where
  pub bits_per_key : ℕ
  pub page_size_bytes : ℕ
  pub blocks_per_chunk : ℕ

-- `build`, its blocks.
unfoldable pub data_section : TableConfig → List KeyValue → List ℕ × List BlockMeta
unfolding build_blocks
data_section config entries =
    build_blocks (length entries) (max config.page_size_bytes 1) [] entries

-- `build`, its range.
unfoldable pub table_range : List BlockMeta → KeyRange
unfolding last_max
table_range blocks = record { min = first_min blocks; max = last_max [] blocks }

-- The bytes up to the root header, and the index that the root holds.
unfoldable pub put_index : ℕ → ℕ → List ℕ → List BlockMeta → List ℕ × Index
unfolding chunks append_shards
put_index per_chunk sst_id buf blocks =
    if leb (length blocks) per_chunk
    then (buf, inline blocks)
    else (let (all, refs) = append_shards sst_id buf (chunks (length blocks) per_chunk blocks) in
        (all, sharded refs))

-- The root header behind its index.
unfoldable pub root_header : FastBloom → TableConfig → ℕ → List KeyValue → Header
unfolding data_section table_range put_index build_bloom
root_header fb config sst_id entries =
    let (buf, blocks) = data_section config entries in
    root sst_id (table_range blocks)
      (build_bloom fb config.bits_per_key (length entries) (map (λ e. e.key.user_key) entries))
      (length buf) (put_index (max config.blocks_per_chunk 1) sst_id buf blocks).1

-- The root header at the end of the file, with its length behind it.
unfoldable pub with_root : List ℕ → List ℕ → List ℕ
with_root buf root_bytes = buf ++ (root_bytes ++ be_u32 (length root_bytes % 2 ^ 32))

unfoldable pub write_table : FastBloom → TableConfig → ℕ → List KeyValue → List ℕ
unfolding data_section put_index root_header with_root
write_table fb config sst_id entries =
    let (buf, blocks) = data_section config entries in
    with_root (put_index (max config.blocks_per_chunk 1) sst_id buf blocks).0
      (encode_header (root_header fb config sst_id entries))
