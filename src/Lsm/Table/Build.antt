-- ===== src/Lsm/Table/Build.antt =====
-- crates/lsm/src/storage/sstable.rs, `build` and `append_shards`: sorted entries are packed into
-- blocks, each padded to a page boundary.
pub mod Packed
use Prim.Native.Nat.{max}
use strata_db.Prelude.{
  ℕ, zero, suc, ◌+◌, ◌-◌, ◌%◌, ◌^◌, List, [], ◌∷◌, ◌++◌, Bool, ◌&&◌, length, take, drop, ltb, ◌==◌,
  if◌then◌else◌,
}
use strata_db.Journal.File.{zeros}
use strata_db.Lsm.Key.{KeyValue}
use strata_db.Lsm.Data.{entry_size, encode_block}
use strata_db.Lsm.Table.Header.{BlockMeta, Header, child, encode_header}

-- The inner loop: the entries of one block, and those that are left.
unfoldable pub fill : ℕ → ℕ → List KeyValue → List KeyValue × List KeyValue
fill target block_size [] = ([], [])
fill target block_size (e ∷ es) =
    let size = block_size + entry_size e in
    let (taken, rest) = fill target size es in
    if ltb 0 block_size && ltb target size then ([], e ∷ es) else (e ∷ taken, rest)

-- `max_key` after the entries of a block.
unfoldable pub last_key : List ℕ → List KeyValue → List ℕ
last_key key [] = key
last_key key (e ∷ es) = last_key e.key.user_key es

-- `data.resize(...)` to a page boundary
unfoldable pub pad : ℕ → List ℕ → List ℕ
pad target bytes =
    let rem = length bytes % target in if rem == 0 then bytes else bytes ++ zeros (target - rem)

abbrev pub block_meta : List ℕ → ℕ → ℕ → List KeyValue → BlockMeta
block_meta min_key offset len block = record {
  min_key = min_key;
  max_key = last_key min_key block;
  offset = offset;
  len = len % 2 ^ 32;
}

-- The outer loop. Every block takes an entry at least, so the number of entries is fuel enough.
unfoldable pub build_blocks : ℕ → ℕ → List ℕ → List KeyValue → List ℕ × List BlockMeta
unfolding fill last_key pad
build_blocks zero target bytes entries = (bytes, [])
build_blocks (suc fuel) target bytes [] = (bytes, [])
build_blocks (suc fuel) target bytes (e ∷ es) =
    let (block, rest) = fill target 0 (e ∷ es) in
    let written = bytes ++ encode_block block in
    let (all, metas) = build_blocks fuel target (pad target written) rest in
    let meta = block_meta e.key.user_key (length bytes) (length written - length bytes) block in
    (all, meta ∷ metas)

-- `blocks.chunks(per_chunk)`, for `per_chunk` above zero; the number of blocks is fuel enough.
unfoldable pub chunks : ℕ → ℕ → List BlockMeta → List (List BlockMeta)
chunks zero per_chunk metas = []
chunks (suc fuel) per_chunk [] = []
chunks (suc fuel) per_chunk (m ∷ ms) =
    take per_chunk (m ∷ ms) ∷ chunks fuel per_chunk (drop per_chunk (m ∷ ms))

abbrev pub first_min : List BlockMeta → List ℕ
first_min [] = []
first_min (m ∷ ms) = m.min_key

unfoldable pub last_max : List ℕ → List BlockMeta → List ℕ
last_max key [] = key
last_max key (m ∷ ms) = last_max m.max_key ms

-- The loop of `append_shards`: the bytes, and the directory.
unfoldable pub append_shards : ℕ → List ℕ → List (List BlockMeta) → List ℕ × List BlockMeta
unfolding last_max
append_shards sst_id buf [] = (buf, [])
append_shards sst_id buf (slice ∷ slices) =
    let bytes = encode_header (child sst_id slice) in
    let (all, refs) = append_shards sst_id (buf ++ bytes) slices in
    (
      all,
      record {
        min_key = first_min slice;
        max_key = last_max [] slice;
        offset = length buf;
        len = length bytes % 2 ^ 32;
      }
          ∷ refs,
    )
