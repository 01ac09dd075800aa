-- ===== src/Lsm/Table/Header/RoundTrip.antt =====
-- What the header decoder reads back.
use native.Mathlib.Nat.{mod-eq_of_lt}
use strata_db.Prelude.{ℕ, ◌^◌, ◌<◌, List, [], ◌++◌, length, All, ◌>>=◌, arith}
use strata_db.Prelude.Reads.{Reads, Reads-bind, Reads-map, Reads-pure, repeat, repeat-Reads}
use strata_db.Filesystem.Codec.{
  unexpected_eof, be_u16, be_u64, get_u8, get_u16, get_u32, get_u64, put_bytes, get_bytes,
}
use strata_db.Filesystem.Codec.RoundTrip.{
  read_be-Reads, get_u8-Reads, get_u32-Reads, get_u64-Reads, get_bytes-put_bytes,
}
use strata_db.Lsm.Key.{KeyRange}
use strata_db.Lsm.Table.Header.{
  BlockMeta, Index, inline, sharded, BloomFilter, Header, root, child, put_meta, put_metas,
  encode_bloom, encode_index, encode_role, encode_header, get_meta, get_metas, decode_bloom,
  decode_index, get_index, get_role, decode_root, decode_role, check_magic, check_version,
  decode_header,
}

pub record FitsMeta (m : BlockMeta) : Type 0 where
  pub min_len : length m.min_key < 2 ^ 32
  pub max_len : length m.max_key < 2 ^ 32
  pub offset : m.offset < 2 ^ 64
  pub len : m.len < 2 ^ 32

-- Also that there are not more than a count can tell.
abbrev pub FitMetas : List BlockMeta → Type 0
FitMetas metas = (length metas < 2 ^ 32) × All FitsMeta metas

pub record FitsBloom (b : BloomFilter) : Type 0 where
  pub hashes : b.num_hashes < 2 ^ 32
  pub count : length b.blocks < 2 ^ 32
  pub words : All (λ w. w < 2 ^ 64) b.blocks

abbrev pub FitsIndex : Index → Type 0
FitsIndex (inline blocks) = FitMetas blocks
FitsIndex (sharded chunks) = FitMetas chunks

abbrev pub FitsHeader : Header → Type 0
FitsHeader (root sst_id range bloom size_bytes index) =
    (sst_id < 2 ^ 64)
    × (length range.min < 2 ^ 32)
    × (length range.max < 2 ^ 32)
    × (size_bytes < 2 ^ 64)
    × FitsBloom bloom
    × FitsIndex index
FitsHeader (child sst_id blocks) = (sst_id < 2 ^ 64) × FitMetas blocks

get_u16-Reads : (v : ℕ) → v < 2 ^ 16 → Reads get_u16 (be_u16 v) v
get_u16-Reads v h = read_be-Reads unexpected_eof 2 v h

get_meta-put_meta : (m : BlockMeta) → FitsMeta m → Reads get_meta (put_meta m) m
unfolding get_meta put_meta
get_meta-put_meta m fits = Reads-bind get_bytes _ (get_bytes-put_bytes m.min_key fits.min_len) (
    Reads-bind get_bytes _ (get_bytes-put_bytes m.max_key fits.max_len) (
      Reads-bind get_u64 _ (get_u64-Reads m.offset fits.offset)
        (Reads-map get_u32 _ (get_u32-Reads m.len fits.len))))

get_metas-put_metas : (ms : List BlockMeta) → FitMetas ms → Reads get_metas (put_metas ms) ms
unfolding get_metas put_metas
get_metas-put_metas ms fits = rw (mod-eq_of_lt fits.0) (
    Reads-bind get_u32 _ (get_u32-Reads (length ms) fits.0)
      (repeat-Reads get_meta put_meta FitsMeta get_meta-put_meta ms fits.1))

decode_bloom-encode_bloom : (b : BloomFilter) → FitsBloom b → Reads decode_bloom (encode_bloom b) b
unfolding decode_bloom encode_bloom
decode_bloom-encode_bloom b fits = rw (mod-eq_of_lt fits.count) (
    Reads-bind get_u32 _ (get_u32-Reads b.num_hashes fits.hashes) (
      Reads-bind get_u32 _ (get_u32-Reads (length b.blocks) fits.count) (
        Reads-map (repeat (length b.blocks) get_u64) _
          (repeat-Reads get_u64 be_u64 (λ w. w < 2 ^ 64) get_u64-Reads b.blocks fits.words))))

index-Reads : (i : Index) → FitsIndex i → Reads get_index (encode_index i) i
unfolding get_index encode_index decode_index
index-Reads (inline blocks) fits =
    Reads-bind get_u8 _ (get_u8-Reads 0 (omega arith))
      (Reads-map get_metas inline (get_metas-put_metas blocks fits))
index-Reads (sharded chunks) fits =
    Reads-bind get_u8 _ (get_u8-Reads 1 (omega arith))
      (Reads-map get_metas sharded (get_metas-put_metas chunks fits))

root-Reads :
    (sst_id : ℕ) (range : KeyRange) (bloom : BloomFilter) (size_bytes : ℕ) (index : Index)
    → FitsHeader (root sst_id range bloom size_bytes index)
    → Reads
        (decode_root sst_id)
        (put_bytes range.min
          ++ (put_bytes range.max
              ++ (be_u64 size_bytes ++ (encode_bloom bloom ++ encode_index index))))
        (root sst_id range bloom size_bytes index)
unfolding decode_root
root-Reads sst_id range bloom size_bytes index fits =
    Reads-bind get_bytes _ (get_bytes-put_bytes range.min fits.1) (
      Reads-bind get_bytes _ (get_bytes-put_bytes range.max fits.2) (
        Reads-bind get_u64 _ (get_u64-Reads size_bytes fits.3) (
          Reads-bind decode_bloom _ (decode_bloom-encode_bloom bloom fits.4)
            (Reads-map get_index _ (index-Reads index fits.5)))))

role-Reads : (h : Header) → FitsHeader h → Reads get_role (encode_role h) h
unfolding get_role encode_role decode_role
role-Reads (root sst_id range bloom size_bytes index) fits =
    Reads-bind get_u8 _ (get_u8-Reads 0 (omega arith)) (
      Reads-bind get_u64 _ (get_u64-Reads sst_id fits.0)
        (root-Reads sst_id range bloom size_bytes index fits))
role-Reads (child sst_id blocks) fits = Reads-bind get_u8 _ (get_u8-Reads 1 (omega arith)) (
    Reads-bind get_u64 _ (get_u64-Reads sst_id fits.0)
      (Reads-map get_metas (child sst_id) (get_metas-put_metas blocks fits.1)))

-- A header whose numbers, lengths and counts fit their fields is read back, whatever follows.
pub decode_header-encode_header :
    (h : Header) → FitsHeader h → Reads decode_header (encode_header h) h
unfolding decode_header encode_header check_magic check_version
decode_header-encode_header h fits = Reads-bind get_u32 _ (get_u32-Reads 0x53535431 (omega arith)) (
    Reads-bind (check_magic 0x53535431)
      (λ good_magic. get_u16 >>= (λ version. check_version version >>= (λ good_version. get_role)))
      {xs = []} (Reads-pure tt)
      (Reads-bind get_u16 (λ version. check_version version >>= (λ good_version. get_role))
        (get_u16-Reads 2 (omega arith))
        (Reads-bind (check_version 2) (λ good_version. get_role) {xs = []} (Reads-pure tt)
          (role-Reads h fits))))
