-- ===== src/Lsm/Table/Header.antt =====
-- crates/lsm/src/storage/header.rs: the index of a table, and its codec. A Bloom filter is the state
-- that is written: its bit blocks and its number of hashes.
pub mod RoundTrip
use strata_db.Prelude.{
  ℕ, ◌+◌, ◌%◌, ◌^◌, List, [], ◌∷◌, ◌++◌, length, not, ◌==◌, if◌then◌else◌, Decoder, ◌>>=◌, pure,
  fail,
}
use strata_db.Prelude.Reads.{concat_map, repeat}
use strata_db.Filesystem.Codec.{
  DecodeError, bad_magic, unsupported_version, unknown_op_type, be_u8, be_u16, be_u32, be_u64,
  get_u8, get_u16, get_u32, get_u64, put_bytes, get_bytes,
}
use strata_db.Lsm.Key.{KeyRange}

abbrev pub sst_magic : ℕ
sst_magic = 0x53535431

abbrev pub sst_version : ℕ
sst_version = 2

abbrev pub role_root : ℕ
role_root = 0

abbrev pub role_child : ℕ
role_child = 1

abbrev pub index_inline : ℕ
index_inline = 0

abbrev pub index_sharded : ℕ
index_sharded = 1

-- `BlockMeta`, and `ChunkRef`
pub record BlockMeta : Type 0 where
  pub min_key : List ℕ
  pub max_key : List ℕ
  pub offset : ℕ
  pub len : ℕ

pub data Index : Type 0 where
  inline : List BlockMeta → Index
  sharded : List BlockMeta → Index

pub record BloomFilter : Type 0 where
  pub num_hashes : ℕ
  pub blocks : List ℕ

pub data Header : Type 0 where
  root : ℕ → KeyRange → BloomFilter → ℕ → Index → Header
  child : ℕ → List BlockMeta → Header

unfoldable pub put_meta : BlockMeta → List ℕ
put_meta m = put_bytes m.min_key ++ (put_bytes m.max_key ++ (be_u64 m.offset ++ be_u32 m.len))

unfoldable pub put_metas : List BlockMeta → List ℕ
unfolding put_meta
put_metas metas = be_u32 (length metas % 2 ^ 32) ++ concat_map put_meta metas

unfoldable pub encode_bloom : BloomFilter → List ℕ
encode_bloom b =
    be_u32 b.num_hashes ++ (be_u32 (length b.blocks % 2 ^ 32) ++ concat_map be_u64 b.blocks)

unfoldable pub encode_index : Index → List ℕ
unfolding put_metas
encode_index (inline blocks) = be_u8 index_inline ++ put_metas blocks
encode_index (sharded chunks) = be_u8 index_sharded ++ put_metas chunks

-- What stands behind magic and version.
unfoldable pub encode_role : Header → List ℕ
unfolding put_metas encode_bloom encode_index
encode_role (root sst_id range bloom size_bytes index) =
    be_u8 role_root
    ++ (be_u64 sst_id
        ++ (put_bytes range.min
            ++ (put_bytes range.max
                ++ (be_u64 size_bytes ++ (encode_bloom bloom ++ encode_index index)))))
encode_role (child sst_id blocks) = be_u8 role_child ++ (be_u64 sst_id ++ put_metas blocks)

-- `Encode for Header`
unfoldable pub encode_header : Header → List ℕ
unfolding encode_role
encode_header h = be_u32 sst_magic ++ (be_u16 sst_version ++ encode_role h)

unfoldable pub get_meta : Decoder DecodeError (List ℕ) BlockMeta
get_meta = do
  min_key ← get_bytes
  max_key ← get_bytes
  offset ← get_u64
  len ← get_u32
  pure (record { min_key = min_key; max_key = max_key; offset = offset; len = len })

unfoldable pub get_metas : Decoder DecodeError (List ℕ) (List BlockMeta)
unfolding get_meta
get_metas = do count ← get_u32; repeat count get_meta

unfoldable pub decode_bloom : Decoder DecodeError (List ℕ) BloomFilter
decode_bloom = do
  num_hashes ← get_u32
  count ← get_u32
  blocks ← repeat count get_u64
  pure (record { num_hashes = num_hashes; blocks = blocks })

unfoldable pub decode_index : ℕ → Decoder DecodeError (List ℕ) Index
unfolding get_metas
decode_index tag =
    if tag == index_inline
    then (do blocks ← get_metas; pure (inline blocks))
    else if tag == index_sharded
    then (do chunks ← get_metas; pure (sharded chunks))
    else fail (unknown_op_type tag)

unfoldable pub get_index : Decoder DecodeError (List ℕ) Index
unfolding decode_index
get_index = do tag ← get_u8; decode_index tag

unfoldable pub decode_root : ℕ → Decoder DecodeError (List ℕ) Header
unfolding decode_bloom get_index
decode_root sst_id = do
  min ← get_bytes
  max ← get_bytes
  size_bytes ← get_u64
  bloom ← decode_bloom
  index ← get_index
  pure (root sst_id (record { min = min; max = max }) bloom size_bytes index)

unfoldable pub decode_role : ℕ → ℕ → Decoder DecodeError (List ℕ) Header
unfolding decode_root get_metas
decode_role role sst_id =
    if role == role_root
    then decode_root sst_id
    else if role == role_child
    then (do blocks ← get_metas; pure (child sst_id blocks))
    else fail (unknown_op_type role)

unfoldable pub get_role : Decoder DecodeError (List ℕ) Header
unfolding decode_role
get_role = do role ← get_u8; sst_id ← get_u64; decode_role role sst_id

unfoldable pub check_magic : ℕ → Decoder DecodeError (List ℕ) (Unit {0})
check_magic magic = if not (magic == sst_magic) then fail (bad_magic sst_magic magic) else pure tt

unfoldable pub check_version : ℕ → Decoder DecodeError (List ℕ) (Unit {0})
check_version version =
    if not (version == sst_version) then fail (unsupported_version version) else pure tt

-- `Decode for Header`
unfoldable pub decode_header : Decoder DecodeError (List ℕ) Header
unfolding check_magic check_version get_role
decode_header = do
  magic ← get_u32
  good_magic ← check_magic magic
  version ← get_u16
  good_version ← check_version version
  get_role
