-- ===== src/Lsm/Table/Read.antt =====
-- crates/lsm/src/storage/sstable.rs: opening a table, point lookups and scans. A table file is the
-- list of its bytes; it is never written again, so that the page cache in front of it is left out.
pub mod Opened
pub mod Covering
pub mod Located
pub mod Shards
use strata_db.Prelude.{
  ℕ, ◌+◌, ◌-◌, List, [], ◌∷◌, ◌++◌, Option, none, some, Bool, true, false, not, ◌&&◌, ◌||◌, map,
  length, take, drop, ltb, leb, if◌then◌else◌, Result, ok, err, and_then,
}
use strata_db.Prelude.Order.{is_le, is_lt, cmp_bytes}
use strata_db.Filesystem.Codec.{get_u32}
use strata_db.Lsm.Error.{LsmError}
use strata_db.Lsm.Key.{KeyRange, contains, KeyValue, bytes_eq}
use strata_db.Lsm.Data.{decode_block}
use strata_db.Lsm.Memtable.{Bound, included, excluded, unbounded, keep}
use strata_db.Lsm.Memtable.Scan.{above_key, below_key}
use strata_db.Lsm.Overlap.{overlaps}
use strata_db.Lsm.Table.Header.{
  BlockMeta, Index, inline, sharded, BloomFilter, Header, root, child, decode_header,
}
use strata_db.Lsm.Table.Bloom.{FastBloom}

-- `SsTable`, without the directory its file lies in.
pub record SsTable : Type 0 where
  pub sst_id : ℕ
  pub range : KeyRange
  pub bloom : BloomFilter
  pub size_bytes : ℕ
  pub index : Index

-- `read_range`: exactly `len` bytes.
unfoldable pub read_range : List ℕ → ℕ → ℕ → Result LsmError (List ℕ)
read_range file offset len =
    if ltb 0 len && ltb (length file) (offset + len)
    then err LsmError.internal
    else ok (take len (drop offset file))

-- `read_header_page`
unfoldable pub read_header_page : List ℕ → Result LsmError (List ℕ)
unfolding read_range
read_header_page file =
    if ltb (length file) 4
    then err LsmError.internal
    else elim (get_u32 (drop (length file - 4) file)) [
      | err e ↦ err LsmError.internal
      | ok (header_len, rest) ↦
          if ltb (length file) (header_len + 4)
          then err LsmError.internal
          else read_range file (length file - (4 + header_len)) header_len
    ]

unfoldable pub as_root : Header → Result LsmError SsTable
as_root (root sst_id range bloom size_bytes index) = ok (record {
  sst_id = sst_id;
  range = range;
  bloom = bloom;
  size_bytes = size_bytes;
  index = index;
})
as_root (child sst_id blocks) = err LsmError.internal

-- `Header::decode` with its error, which is internal to the store.
unfoldable pub parse_header : List ℕ → Result LsmError Header
parse_header bytes = elim (decode_header bytes) [
  | err e ↦ err LsmError.internal
  | ok (header, rest) ↦ ok header
]

-- `SsTable::open`
unfoldable pub open_table : List ℕ → Result LsmError SsTable
unfolding read_header_page parse_header as_root
open_table file = and_then (and_then (read_header_page file) parse_header) as_root

unfoldable pub covering : List BlockMeta → List ℕ → Option BlockMeta
covering [] key = none
covering (m ∷ ms) key =
    let later = covering ms key in
    if is_le (cmp_bytes m.min_key key) && is_le (cmp_bytes key m.max_key) then some m else later

unfoldable pub as_child : Header → Result LsmError (List BlockMeta)
as_child (child sst_id blocks) = ok blocks
as_child (root sst_id range bloom size_bytes index) = err LsmError.internal

unfoldable pub load_child : List ℕ → BlockMeta → Result LsmError (List BlockMeta)
unfolding read_range parse_header as_child
load_child file cref =
    and_then (and_then (read_range file cref.offset cref.len) parse_header) as_child

unfoldable pub locate_block : List ℕ → Index → List ℕ → Result LsmError (Option BlockMeta)
unfolding covering load_child
locate_block file (inline blocks) key = ok (covering blocks key)
locate_block file (sharded chunks) key = elim (covering chunks key) [
  | none ↦ ok none
  | some cref ↦ and_then (load_child file cref) (λ blocks. ok (covering blocks key))
]

-- `DataBlock::decode` with its error. The decoder always ends, so `none` does not arise.
unfoldable pub parse_block : List ℕ → Result LsmError (List KeyValue)
parse_block bytes = elim (decode_block bytes) [
  | none ↦ err LsmError.internal
  | some (err e) ↦ err LsmError.internal
  | some (ok kvs) ↦ ok kvs
]

unfoldable pub load_block : List ℕ → BlockMeta → Result LsmError (List KeyValue)
unfolding read_range parse_block
load_block file block = and_then (read_range file block.offset block.len) parse_block

-- The loop of `get`: the first version of the key that is not too new.
unfoldable pub first_version : List ℕ → ℕ → List KeyValue → Option KeyValue
first_version key max_seq [] = none
first_version key max_seq (kv ∷ kvs) =
    let later = first_version key max_seq kvs in
    if bytes_eq kv.key.user_key key && leb kv.key.seq max_seq then some kv else later

unfoldable pub search_block :
    List ℕ → List ℕ → ℕ → Option BlockMeta → Result LsmError (Option KeyValue)
unfolding load_block first_version
search_block file key max_seq none = ok none
search_block file key max_seq (some block) =
    and_then (load_block file block) (λ kvs. ok (first_version key max_seq kvs))

-- `SsTable::get`
unfoldable pub get : FastBloom → List ℕ → SsTable → List ℕ → ℕ → Result LsmError (Option KeyValue)
unfolding locate_block search_block
get fb file table key max_seq =
    if not (contains table.range key) || not (fb.contains table.bloom key)
    then ok none
    else and_then (locate_block file table.index key) (search_block file key max_seq)

-- `block_overlaps`: the test that `overlaps` of lib.rs makes of a whole table.
unfoldable pub block_overlaps : BlockMeta → Bound (List ℕ) → Bound (List ℕ) → Bool
unfolding overlaps
block_overlaps b start end_ = overlaps (record { min = b.min_key; max = b.max_key }) start end_

-- The entries of a scan: `kv.key.seq <= max_seq && in_bounds(..)`.
unfoldable pub in_scan : Bound (List ℕ) → Bound (List ℕ) → ℕ → KeyValue → Bool
in_scan start end_ max_seq kv =
    leb kv.key.seq max_seq && (above_key start kv.key.user_key && below_key end_ kv.key.user_key)

-- `load_entries`
unfoldable pub load_entries :
    List ℕ → Bound (List ℕ) → Bound (List ℕ) → ℕ → BlockMeta → Result LsmError (List KeyValue)
unfolding load_block in_scan
load_entries file start end_ max_seq block =
    and_then (load_block file block) (λ kvs. ok (keep (in_scan start end_ max_seq) kvs))

-- `BlockStream` run over the blocks of an index or a shard, and then over `after`: the overlapping
-- blocks in order, the first error last.
unfoldable pub scan_blocks :
    List ℕ
    → Bound (List ℕ)
    → Bound (List ℕ)
    → ℕ
    → List BlockMeta
    → List (Result LsmError KeyValue)
    → List (Result LsmError KeyValue)
unfolding load_entries block_overlaps
scan_blocks file start end_ max_seq [] after = after
scan_blocks file start end_ max_seq (b ∷ bs) after =
    let others = scan_blocks file start end_ max_seq bs after in
    if block_overlaps b start end_
    then (elim (load_entries file start end_ max_seq b) [
      | err e ↦ err e ∷ []
      | ok kvs ↦ map ok kvs ++ others
    ])
    else others

-- The overlapping shards in order.
unfoldable pub scan_shards :
    List ℕ → Bound (List ℕ) → Bound (List ℕ) → ℕ → List BlockMeta → List (Result LsmError KeyValue)
unfolding scan_blocks load_child
scan_shards file start end_ max_seq [] = []
scan_shards file start end_ max_seq (c ∷ cs) =
    let others = scan_shards file start end_ max_seq cs in
    if block_overlaps c start end_
    then (elim (load_child file c) [
      | err e ↦ err e ∷ []
      | ok blocks ↦ scan_blocks file start end_ max_seq blocks others
    ])
    else others

-- `SsTable::scan`, drained.
unfoldable pub scan :
    List ℕ → SsTable → Bound (List ℕ) → Bound (List ℕ) → ℕ → List (Result LsmError KeyValue)
unfolding scan_blocks scan_shards
scan file table start end_ max_seq = elim table.index [
  | inline blocks ↦ scan_blocks file start end_ max_seq blocks []
  | sharded chunks ↦ scan_shards file start end_ max_seq chunks
]
