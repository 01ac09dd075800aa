-- ===== src/Lsm/Table/Examples.antt =====
-- Tests of crates/lsm/src/storage: table files.
use strata_db.Prelude.{
  ℕ, ◌<◌, ◌^◌, ◌==◌, ◌≡◌, refl, List, [], ◌∷◌, map, Bool, ◌||◌, length, ok, and_then, ==_iff, arith,
}
use strata_db.Prelude.Order.{cmp_bytes}
use strata_db.Prelude.Reads.{Reads}
use strata_db.Filesystem.Codec.{to_be_bytes, put_bytes}
use strata_db.Lsm.Key.{OpType, put, delete, KeyValue, cmp_kv, cmp_key}
use strata_db.Lsm.Data.RoundTrip.{FitsEntry}
use strata_db.Lsm.Memtable.{included, excluded, keep}
use strata_db.Lsm.Merge.Sorted.{Sorted}
use strata_db.Lsm.Resolve.Newest.{newest}
use strata_db.Lsm.Table.Header.{
  Header, child, put_meta, put_metas, encode_bloom, encode_index, encode_role, encode_header,
  decode_header,
}
use strata_db.Lsm.Table.Header.RoundTrip.{decode_header-encode_header}
use strata_db.Lsm.Table.Bloom.{FastBloom, FindsInserted, insert_all, build_bloom}
use strata_db.Lsm.Table.Write.{
  TableConfig, data_section, table_range, put_index, root_header, with_root, write_table,
}
use strata_db.Lsm.Table.Build.{fill, last_key, pad, build_blocks, chunks, last_max, append_shards}
use strata_db.Lsm.Data.{op_byte, encode_kv, entry_size, encode_block}
use strata_db.Journal.File.{zeros}
use strata_db.Lsm.Table.Read.{open_table, get, in_scan, scan}
use strata_db.Lsm.Table.Holds.Written.{Writable}
use strata_db.Lsm.Table.Holds.Lookup.{get-write_table, scan-write_table}

abbrev has : ℕ → List ℕ → Bool
has n [] = Bool.false
has n (b ∷ bs) = n == b || has n bs

-- A filter that tells keys apart by their length.
abbrev pub length_filter : FastBloom
length_filter = record {
  with_num_bits = λ bits items. record { num_hashes = 1; blocks = [] };
  insert = λ k f. record { num_hashes = f.num_hashes; blocks = length k ∷ f.blocks };
  contains = λ f k. has (length k) f.blocks;
}

pub length_filter-FindsInserted : FindsInserted length_filter
length_filter-FindsInserted = record {
  inserted = λ f k. ground (arith, (==_iff (length k) (length k)).1 refl);
  kept = λ f j k h. ground (arith, h);
}

abbrev entry : ℕ → ℕ → OpType → KeyValue
entry k seq op = record { key = record { user_key = k ∷ []; seq = seq; op = op }; value = seq ∷ [] }

-- Two versions of key 1, and keys 2 and 4.
abbrev entries : List KeyValue
entries = entry 1 5 delete ∷ entry 1 3 put ∷ entry 2 4 put ∷ entry 4 1 put ∷ []

-- A page takes one entry and an index shard two blocks, so that the table is sharded.
abbrev small_pages : TableConfig
small_pages = record { bits_per_key = 10; page_size_bytes = 20; blocks_per_chunk = 2 }

entries-Sorted : Sorted cmp_kv entries
unfolding cmp_key cmp_bytes
entries-Sorted = ((refl, (refl, (refl, tt))), ((refl, (refl, tt)), ((refl, tt), (tt, tt))))

entry-fits : (k seq : ℕ) (op : OpType) → seq < 2 ^ 64 → FitsEntry (entry k seq op)
entry-fits k seq op h = record { key_len = omega arith; seq = h; value_len = omega arith }

entries-Writable : Writable length_filter small_pages 7 entries
unfolding write_table data_section build_blocks fill last_key pad encode_block encode_kv op_byte
    entry_size zeros table_range last_max put_index chunks append_shards root_header with_root
    encode_header encode_role put_metas put_meta encode_bloom encode_index build_bloom insert_all
    to_be_bytes put_bytes
entries-Writable = record {
  id = omega arith;
  count = omega arith;
  each = (
    entry-fits 1 5 delete (omega arith),
    (
      entry-fits 1 3 put (omega arith),
      (entry-fits 2 4 put (omega arith), (entry-fits 4 1 put (omega arith), tt)),
    ),
  );
  size = omega arith;
  filter = record {
    hashes = omega arith;
    count = omega arith;
    words = (omega arith, (omega arith, (omega arith, (omega arith, tt))));
  };
}

get-write_table_example :
    and_then (open_table (write_table length_filter small_pages 7 entries)) (λ table.
      get length_filter (write_table length_filter small_pages 7 entries) table (1 ∷ []) 9)
    ≡ ok (newest (1 ∷ []) entries)
get-write_table_example =
    get-write_table length_filter length_filter-FindsInserted small_pages 7 entries (1 ∷ []) 9
      entries-Sorted entries-Writable (omega arith, (omega arith, (omega arith, (omega arith, tt))))

scan-write_table_example :
    and_then (open_table (write_table length_filter small_pages 7 entries)) (λ table. ok (
      scan
        (write_table length_filter small_pages 7 entries)
        table
        (included (1 ∷ []))
        (excluded (4 ∷ []))
        4))
    ≡ ok (map ok (keep (in_scan (included (1 ∷ [])) (excluded (4 ∷ [])) 4) entries))
scan-write_table_example =
    scan-write_table length_filter length_filter-FindsInserted small_pages 7 entries
      (included (1 ∷ [])) (excluded (4 ∷ [])) 4 entries-Sorted entries-Writable

abbrev shard : Header
shard = child 7 (
    record { min_key = 1 ∷ []; max_key = 2 ∷ []; offset = 0; len = 19 }
    ∷ record { min_key = 2 ∷ []; max_key = 4 ∷ 1 ∷ []; offset = 20; len = 38 }
    ∷ [])

decode_header-encode_header_example : Reads decode_header (encode_header shard) shard
decode_header-encode_header_example = decode_header-encode_header shard (
  omega arith,
  (
    omega arith,
    (
      record {
        min_len = omega arith;
        max_len = omega arith;
        offset = omega arith;
        len = omega arith;
      },
      (
        record {
          min_len = omega arith;
          max_len = omega arith;
          offset = omega arith;
          len = omega arith;
        },
        tt,
      ),
    ),
  ),
)
