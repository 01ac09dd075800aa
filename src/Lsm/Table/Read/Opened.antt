-- ===== src/Lsm/Table/Read/Opened.antt =====
-- Reading a table file back: its root header, its shards and its blocks.
use native.Mathlib.Nat.{mod-eq_of_lt}
use strata_db.Prelude.{
  ℕ, ◌+◌, ◌-◌, ◌%◌, ◌^◌, ◌≤◌, ◌<◌, ◌≡◌, refl, sym, ap, ◌∙◌, List, [], ◌∷◌, ◌++◌, append_assoc,
  append-nil, length, length-append, take, drop, take-append, drop-append, All, ltb-eq_false, ok,
  arith,
}
use strata_db.Filesystem.Codec.{be_u32, get_u32}
use strata_db.Filesystem.Codec.RoundTrip.{get_u32-Reads, length-to_be_bytes}
use strata_db.Lsm.Key.{KeyValue}
use strata_db.Lsm.Key.{KeyRange}
use strata_db.Lsm.Data.RoundTrip.{FitsEntry, decode_block-encode_block}
use strata_db.Lsm.Table.Header.{
  BlockMeta, BloomFilter, Index, Header, root, child, encode_header, decode_header,
}
use strata_db.Lsm.Table.Header.RoundTrip.{FitsHeader, decode_header-encode_header}
use strata_db.Lsm.Table.Build.Packed.{Stored}
use strata_db.Lsm.Table.Write.{with_root}
use strata_db.Lsm.Table.Read.{
  read_range, read_header_page, parse_header, as_root, open_table, as_child, load_child,
  parse_block, load_block,
}

pub read_range-ok :
    (file : List ℕ) (offset len : ℕ)
    → offset + len ≤ length file
    → read_range file offset len ≡ ok (take len (drop offset file))
unfolding read_range
read_range-ok file offset len h = rw (ltb-eq_false (length file) (offset + len) h) (ground arith)

read_header_page-ok :
    (file : List ℕ) (len : ℕ) (rest : List ℕ)
    → len + 4 ≤ length file
    → get_u32 (drop (length file - 4) file) ≡ ok (len, rest)
    → read_header_page file ≡ ok (take len (drop (length file - (4 + len)) file))
unfolding read_header_page
read_header_page-ok file len rest h footer = rw (ltb-eq_false (length file) 4 (omega arith)) (
    rw footer (
      rw (ltb-eq_false (length file) (len + 4) h)
        (read_range-ok file (length file - (4 + len)) len (omega arith))))

read_header_page-with_root :
    (buf bytes : List ℕ) → length bytes < 2 ^ 32 → read_header_page (with_root buf bytes) ≡ ok bytes
unfolding with_root
read_header_page-with_root buf bytes small =
    let footer = be_u32 (length bytes % 2 ^ 32) in
    let file = buf ++ (bytes ++ footer) in
    let total : length file ≡ length buf + length bytes + 4 = omega (
      arith,
      length-append buf (bytes ++ footer),
      length-append bytes footer,
      length-to_be_bytes 4 (length bytes % 2 ^ 32),
    ) in
    let tail : drop (length file - 4) file ≡ footer =
      ap (drop (length file - 4)) (sym (append_assoc buf bytes footer))
      ∙ drop-append (length file - 4) (buf ++ bytes) footer
          (omega (arith, length-append buf bytes)) in
    let read : get_u32 footer ≡ ok (length bytes, []) =
      ap get_u32 (sym (append-nil footer))
      ∙ (get_u32-Reads (length bytes % 2 ^ 32) (omega arith)).at []
      ∙ ap (λ n. ok (n, [])) (mod-eq_of_lt small) in
    read_header_page-ok file (length bytes) [] (omega arith) (ap get_u32 tail ∙ read)
    ∙ ap (λ t. ok (take (length bytes) t))
        (drop-append (length file - (4 + length bytes)) buf (bytes ++ footer) (omega arith))
    ∙ ap ok (take-append (length bytes) bytes footer refl)

parse_header-encode_header : (h : Header) → FitsHeader h → parse_header (encode_header h) ≡ ok h
unfolding parse_header
parse_header-encode_header h fits =
    rw
      (
        ap decode_header (sym (append-nil (encode_header h)))
            ∙ (decode_header-encode_header h fits).at [],
        parse_header,
      )
      refl

-- A table file opens to what its root header holds, when the header's fields fit.
pub open_table-with_root :
    (buf : List ℕ) (sst_id : ℕ) (range : KeyRange) (bloom : BloomFilter) (size_bytes : ℕ)
    (index : Index)
    → let h = root sst_id range bloom size_bytes index in
      FitsHeader h
      → length (encode_header h) < 2 ^ 32
      → open_table (with_root buf (encode_header h))
        ≡ ok (record {
          sst_id = sst_id;
          range = range;
          bloom = bloom;
          size_bytes = size_bytes;
          index = index;
        })
unfolding open_table as_root
open_table-with_root buf sst_id range bloom size_bytes index fits small =
    let h = root sst_id range bloom size_bytes index in
    rw (read_header_page-with_root buf (encode_header h) small)
      (rw (parse_header-encode_header h fits) refl)

-- The shard that a directory entry points at, in the file.
pub record ShardAt (file : List ℕ) (sst_id : ℕ) (cref : BlockMeta) (slice : List BlockMeta)
    : Type 0 where
  pub bytes_at : take cref.len (drop cref.offset file) ≡ encode_header (child sst_id slice)
  pub within : cref.offset + cref.len ≤ length file
  pub fits : FitsHeader (child sst_id slice)

pub load_child-ShardAt :
    (file : List ℕ) (sst_id : ℕ) (cref : BlockMeta) (slice : List BlockMeta)
    → ShardAt file sst_id cref slice
    → load_child file cref ≡ ok slice
unfolding load_child as_child
load_child-ShardAt file sst_id cref slice at =
    rw (read_range-ok file cref.offset cref.len at.within ∙ ap ok at.bytes_at)
      (rw (parse_header-encode_header (child sst_id slice) at.fits) refl)

-- A stored block is read back, when its entries fit their fields.
pub load_block-Stored :
    (file : List ℕ) (m : BlockMeta) (e : KeyValue) (es : List KeyValue)
    → Stored file m e es
    → All FitsEntry (e ∷ es)
    → load_block file m ≡ ok (e ∷ es)
unfolding load_block parse_block
load_block-Stored file m e es stored fits =
    rw (read_range-ok file m.offset m.len stored.within ∙ ap ok stored.bytes_at)
      (rw (decode_block-encode_block (e ∷ es) fits, parse_block) refl)
