-- ===== src/Lsm/Table/Holds/Written.antt =====
-- `SsTable::write` and `SsTable::open`: the table that is opened holds what was written.
use mathlib.Core.Path.{subst}
use Prim.Native.Nat.{max}
use strata_db.Prelude.{
  ℕ, ◌+◌, ◌%◌, ◌^◌, ◌≤◌, ◌<◌, ◌≡◌, refl, sym, ap, ◌∙◌, inl, inr, List, [], ◌∷◌, ◌++◌, map, none,
  true, false, ◌&&◌, All, Bool-cases, leb, ok, length, length-append, arith,
}
use strata_db.Prelude.Order.{is_le, cmp_bytes}
use strata_db.Filesystem.Codec.{be_u32}
use strata_db.Lsm.Key.{contains, KeyValue, cmp_kv, bytes_eq}
use strata_db.Lsm.Key.Laws.{bytes_eq_iff}
use strata_db.Lsm.Data.RoundTrip.{FitsEntry}
use strata_db.Lsm.Merge.Sorted.{Sorted, concat}
use strata_db.Lsm.Resolve.Newest.{newest}
use strata_db.Lsm.Table.Header.{BlockMeta, Index, root, encode_header}
use strata_db.Lsm.Table.Header.RoundTrip.{FitsMeta, FitsBloom, FitsHeader}
use strata_db.Lsm.Table.Bloom.{FastBloom, FindsInserted, build_bloom, build_bloom-All}
use strata_db.Lsm.Table.Build.{build_blocks, last_key, chunks, last_max}
use strata_db.Lsm.Table.Build.Packed.{Packed, build_blocks-Blocked}
use strata_db.Lsm.Table.Write.{
  TableConfig, data_section, table_range, put_index, root_header, with_root, write_table,
}
use strata_db.Lsm.Table.Write.Fits.{Packed-FitsMeta, Packed-count}
use strata_db.Lsm.Table.Write.Sharded.{append_shards-grows, last_max-short}
use strata_db.Lsm.Table.Read.{SsTable, open_table}
use strata_db.Lsm.Table.Read.Opened.{open_table-with_root}
use strata_db.Lsm.Table.Read.Covering.{newest-outside, newest-absent}
use strata_db.Lsm.Table.Read.Shards.{Packed-Run}
use strata_db.Lsm.Table.Holds.{Holds}
use strata_db.Lsm.Table.Holds.Placed.{
  HoldsIndex-append, put_index-few, put_index-many, put_index-Placed,
}

-- What the range of the table leaves out is not in it.
table_range-Packed :
    (file : List ℕ) (blocks : List BlockMeta) (gs : List (List KeyValue)) (k : List ℕ)
    → Packed file blocks gs
    → Sorted cmp_kv (concat gs)
    → contains (table_range blocks) k ≡ false
    → newest k (concat gs) ≡ none
table_range-Packed file [] [] k packed sorted out = unfold newest in refl
table_range-Packed file [] (g ∷ gs) k packed sorted out = elim packed [ ]
table_range-Packed file (m ∷ ms) gs k packed sorted out =
    let run = Packed-Run file m ms gs packed in
    let e = run.first in
    let es = run.others in
    let range : contains (table_range (m ∷ ms)) k
        ≡ (is_le (cmp_bytes e.key.user_key k) && is_le (cmp_bytes k (last_key e.key.user_key es))) =
      unfold contains table_range in
      ap (λ a. is_le (cmp_bytes a k) && is_le (cmp_bytes k (last_max [] (m ∷ ms)))) run.min_is
      ∙ ap (λ b. is_le (cmp_bytes e.key.user_key k) && is_le (cmp_bytes k b)) (run.max_is []) in
    ap (newest k) run.all_is
    ∙ newest-outside k e es (subst (Sorted cmp_kv) run.all_is sorted) (sym range ∙ out)

-- Nor what the filter rules out.
bloom-absent :
    (fb : FastBloom) (finds : FindsInserted fb) (bits n : ℕ) (entries : List KeyValue) (k : List ℕ)
    → fb.contains (build_bloom fb bits n (map (λ e. e.key.user_key) entries)) k ≡ false
    → newest k entries ≡ none
bloom-absent fb finds bits n entries k out =
    newest-absent k entries
      (differ entries (build_bloom-All fb finds bits n (map (λ e. e.key.user_key) entries)))
  where
    differ :
        (l : List KeyValue)
        → All
            (λ j. fb.contains (build_bloom fb bits n (map (λ e. e.key.user_key) entries)) j ≡ true)
            (map (λ e. e.key.user_key) l)
        → All (λ kv. bytes_eq kv.key.user_key k ≡ false) l
    differ [] h = tt
    differ (kv ∷ l) h = (
      elim (Bool-cases (bytes_eq kv.key.user_key k)) [
        | inl same ↦ absurd (
            ground (
              arith,
              h.0,
              out,
              ap (fb.contains (build_bloom fb bits n (map (λ e. e.key.user_key) entries)))
                  ((bytes_eq_iff kv.key.user_key k).0 same),
            ))
        | inr other ↦ other
      ],
      differ l h.1,
    )

-- The range fits as the metas do.
table_range-short :
    (blocks : List BlockMeta)
    → All FitsMeta blocks
    → (length (table_range blocks).min < 2 ^ 32) × (length (table_range blocks).max < 2 ^ 32)
unfolding table_range
table_range-short [] fits = unfold last_max in (omega arith, omega arith)
table_range-short (m ∷ ms) fits = (fits.0.min_len, last_max-short [] m ms fits)

put_index-grows :
    (per_chunk sst_id : ℕ) (buf : List ℕ) (blocks : List BlockMeta)
    → length buf ≤ length (put_index per_chunk sst_id buf blocks).0
put_index-grows per_chunk sst_id buf blocks = elim (Bool-cases (leb (length blocks) per_chunk)) [
  | inl few ↦ subst grown (sym (put_index-few per_chunk sst_id buf blocks few)) (omega arith)
  | inr many ↦
      subst grown (sym (put_index-many per_chunk sst_id buf blocks many))
        (append_shards-grows sst_id buf (chunks (length blocks) per_chunk blocks))
]
  where
    grown : List ℕ × Index → Type 0
    grown r = length buf ≤ length r.0

-- The entries, the file and the filter fit the format.
pub record Writable (fb : FastBloom) (config : TableConfig) (sst_id : ℕ) (entries : List KeyValue)
    : Type 0 where
  pub id : sst_id < 2 ^ 64
  pub count : length entries < 2 ^ 32
  pub each : All FitsEntry entries
  pub size : length (write_table fb config sst_id entries) < 2 ^ 32
  pub filter :
      FitsBloom
        (build_bloom fb config.bits_per_key (length entries) (map (λ e. e.key.user_key) entries))

-- The table that stands in a file.
pub record OnDisk (fb : FastBloom) (file : List ℕ) (entries : List KeyValue) : Type 0 where
  pub table : SsTable
  pub opens : open_table file ≡ ok table
  pub holds : Holds fb file entries table

pub write_table-OnDisk :
    (fb : FastBloom) (finds : FindsInserted fb) (config : TableConfig) (sst_id : ℕ)
    (entries : List KeyValue)
    → Sorted cmp_kv entries
    → Writable fb config sst_id entries
    → OnDisk fb (write_table fb config sst_id entries) entries
unfolding write_table root_header data_section with_root
write_table-OnDisk fb finds config sst_id entries sorted w =
    let per_chunk = max config.blocks_per_chunk 1 in
    let built = build_blocks (length entries) (max config.page_size_bytes 1) [] entries in
    let buf = built.0 in
    let blocks = built.1 in
    let bloom =
      build_bloom fb config.bits_per_key (length entries) (map (λ e. e.key.user_key) entries) in
    let placed = put_index per_chunk sst_id buf blocks in
    let header = root sst_id (table_range blocks) bloom (length buf) placed.1 in
    let tail = encode_header header ++ be_u32 (length (encode_header header) % 2 ^ 32) in
    let sizes : length (write_table fb config sst_id entries)
        ≡ length placed.0
          + (length (encode_header header)
              + length (be_u32 (length (encode_header header) % 2 ^ 32))) =
      length-append placed.0 tail
      ∙ ap (λ n. length placed.0 + n)
          (length-append (encode_header header)
            (be_u32 (length (encode_header header) % 2 ^ 32))) in
    let small : length placed.0 < 2 ^ 32 = omega (arith, w.size, sizes) in
    let grown = put_index-grows per_chunk sst_id buf blocks in
    let small_buf : length buf < 2 ^ 32 = omega (arith, small, grown) in
    let blocked =
      build_blocks-Blocked (length entries) (max config.page_size_bytes 1) [] entries (omega arith)
        small_buf in
    let gs = blocked.groups in
    let each = subst (All FitsEntry) (sym blocked.holds) w.each in
    let fit_metas = Packed-FitsMeta buf blocks gs blocked.packed small_buf each in
    let few : length blocks < 2 ^ 32 =
      omega (arith, Packed-count buf blocks gs blocked.packed, ap length blocked.holds, w.count) in
    let place =
      put_index-Placed per_chunk sst_id buf blocks gs (omega arith) w.id blocked.packed
        (few, fit_metas) small in
    let fits : FitsHeader header = (
      w.id,
      (table_range-short blocks fit_metas).0,
      (table_range-short blocks fit_metas).1,
      omega (arith, small_buf),
      w.filter,
      place.fits,
    ) in
    record {
      table = record {
        sst_id = sst_id;
        range = table_range blocks;
        bloom = bloom;
        size_bytes = length buf;
        index = placed.1;
      };
      opens =
          open_table-with_root placed.0 sst_id (table_range blocks) bloom (length buf) placed.1 fits
            (omega (arith, w.size, sizes));
      holds = record {
        groups = gs;
        all = blocked.holds;
        index = HoldsIndex-append placed.0 tail sst_id placed.1 gs place.holds;
        in_range = λ k out.
            ap (newest k) (sym blocked.holds)
            ∙ table_range-Packed buf blocks gs k blocked.packed
                (subst (Sorted cmp_kv) (sym blocked.holds) sorted) out;
        in_bloom = bloom-absent fb finds config.bits_per_key (length entries) entries;
        sorted = sorted;
        fits = w.each;
      };
    }
