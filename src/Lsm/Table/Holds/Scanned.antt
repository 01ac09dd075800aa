-- ===== src/Lsm/Table/Holds/Scanned.antt =====
-- A scan of a table yields exactly what is in its range and old enough, in order.
use mathlib.Core.Path.{subst}
use strata_db.Prelude.{
  ℕ, ◌≡◌, refl, sym, ap, ◌∙◌, inl, inr, List, [], ◌∷◌, ◌++◌, map, append_assoc, append-nil, Bool,
  true, false, All, All-append_parts, Bool-cases, Result, ok, arith,
}
use strata_db.Prelude.Order.{is_le, cmp_bytes}
use strata_db.Lsm.Error.{LsmError}
use strata_db.Lsm.Key.{KeyRange, contains, KeyValue, cmp_kv}
use strata_db.Lsm.Data.RoundTrip.{FitsEntry}
use strata_db.Lsm.Memtable.{Bound, keep}
use strata_db.Lsm.Merge.Sorted.{Sorted, concat}
use strata_db.Lsm.Overlap.{overlaps-contains}
use strata_db.Lsm.Table.Header.{BlockMeta, Index, inline, sharded, BloomFilter}
use strata_db.Lsm.Table.Bloom.{FastBloom}
use strata_db.Lsm.Table.Build.{last_key}
use strata_db.Lsm.Table.Build.Packed.{Packed}
use strata_db.Lsm.Table.Read.{
  SsTable, block_overlaps, in_scan, load_block, load_entries, scan_blocks, scan_shards, scan,
}
use strata_db.Lsm.Table.Read.Opened.{load_block-Stored, load_child-ShardAt}
use strata_db.Lsm.Table.Read.Covering.{Sorted-append_parts, min_key-All, last_key-All}
use strata_db.Lsm.Table.Read.Shards.{Directory, Packed-split, Packed-Run, concat-append}
use strata_db.Lsm.Table.Holds.{HoldsIndex, Holds}

keep-append :
    (p : KeyValue → Bool) (xs ys : List KeyValue) → keep p (xs ++ ys) ≡ keep p xs ++ keep p ys
unfolding keep
keep-append p [] ys = refl
keep-append p (x ∷ xs) ys = elim (Bool-cases (p x)) [
  | inl kept ↦ rw (kept, keep) (ap (◌∷◌ x) (keep-append p xs ys))
  | inr left ↦ rw (left, keep) (keep-append p xs ys)
]

map-append {ℓ} :
    {A B : Type ℓ} (f : A → B) (xs ys : List A) → map f (xs ++ ys) ≡ map f xs ++ map f ys
map-append f [] ys = refl
map-append f (x ∷ xs) ys = ap (◌∷◌ (f x)) (map-append f xs ys)

module _ (file : List ℕ) (start end_ : Bound (List ℕ)) (max_seq : ℕ) where
  abbrev wanted : KeyValue → Bool
  wanted = in_scan start end_ max_seq

  -- The output for a list of entries.
  abbrev shown : List KeyValue → List (Result LsmError KeyValue)
  shown l = map ok (keep wanted l)

  shown-append : (xs ys : List KeyValue) → shown (xs ++ ys) ≡ shown xs ++ shown ys
  shown-append xs ys =
      ap (map ok) (keep-append wanted xs ys) ∙ map-append ok (keep wanted xs) (keep wanted ys)

  not_wanted :
      (m : BlockMeta) (kv : KeyValue)
      → block_overlaps m start end_ ≡ false
      → is_le (cmp_bytes m.min_key kv.key.user_key) ≡ true
      → is_le (cmp_bytes kv.key.user_key m.max_key) ≡ true
      → wanted kv ≡ false
  unfolding in_scan block_overlaps contains
  not_wanted m kv out low high =
      let r : KeyRange = record { min = m.min_key; max = m.max_key } in
      ground (arith, overlaps-contains r start end_ kv.key.user_key)

  -- Nothing between the ends of a block or shard that does not overlap is wanted.
  shown-outside :
      (m : BlockMeta) (l : List KeyValue)
      → block_overlaps m start end_ ≡ false
      → All (λ kv. is_le (cmp_bytes m.min_key kv.key.user_key) ≡ true) l
      → All (λ kv. is_le (cmp_bytes kv.key.user_key m.max_key) ≡ true) l
      → shown l ≡ []
  unfolding keep
  shown-outside m [] out low high = refl
  shown-outside m (kv ∷ l) out low high =
      rw (not_wanted m kv out low.0 high.0) (shown-outside m l out low.1 high.1)

  shown-passed :
      (m : BlockMeta) (e : KeyValue) (es : List KeyValue)
      → block_overlaps m start end_ ≡ false
      → Sorted cmp_kv (e ∷ es)
      → m.min_key ≡ e.key.user_key
      → m.max_key ≡ last_key e.key.user_key es
      → shown (e ∷ es) ≡ []
  shown-passed m e es out sorted low high =
      shown-outside m (e ∷ es) out
        (subst (λ k. All (λ kv. is_le (cmp_bytes k kv.key.user_key) ≡ true) (e ∷ es)) (sym low)
          (min_key-All e es sorted))
        (subst (λ k. All (λ kv. is_le (cmp_bytes kv.key.user_key k) ≡ true) (e ∷ es)) (sym high)
          (last_key-All e es sorted))

  load_entries-Stored :
      (m : BlockMeta) (block : List KeyValue)
      → load_block file m ≡ ok block
      → load_entries file start end_ max_seq m ≡ ok (keep wanted block)
  unfolding load_entries
  load_entries-Stored m block loaded = rw loaded refl

  pub scan_blocks-Packed :
      (ms : List BlockMeta) (gs : List (List KeyValue)) (after : List (Result LsmError KeyValue))
      → Packed file ms gs
      → Sorted cmp_kv (concat gs)
      → All FitsEntry (concat gs)
      → scan_blocks file start end_ max_seq ms after ≡ shown (concat gs) ++ after
  unfolding scan_blocks
  scan_blocks-Packed [] [] after packed sorted fits = unfold keep in refl
  scan_blocks-Packed [] (g ∷ gs) after packed sorted fits = elim packed [ ]
  scan_blocks-Packed (m ∷ ms) [] after packed sorted fits = elim packed [ ]
  scan_blocks-Packed (m ∷ ms) ([] ∷ gs) after packed sorted fits = elim packed [ ]
  scan_blocks-Packed (m ∷ ms) ((e ∷ es) ∷ gs) after packed sorted fits =
      let (mine, behind) = Sorted-append_parts (e ∷ es) (concat gs) sorted in
      let (fit, others) = All-append_parts FitsEntry (e ∷ es) (concat gs) fits in
      let ih = scan_blocks-Packed ms gs after packed.1 behind others in
      let whole : shown ((e ∷ es) ++ concat gs) ++ after
          ≡ shown (e ∷ es) ++ (shown (concat gs) ++ after) =
        ap (λ t. t ++ after) (shown-append (e ∷ es) (concat gs))
        ∙ append_assoc (shown (e ∷ es)) (shown (concat gs)) after in
      elim (Bool-cases (block_overlaps m start end_)) [
        | inl in_ ↦ rw in_ (
            rw (load_entries-Stored m (e ∷ es) (load_block-Stored file m e es packed.0 fit))
              (ap (λ t. shown (e ∷ es) ++ t) ih ∙ sym whole))
        | inr out ↦ rw out (
            ih
            ∙ sym (
                whole
                ∙ ap (λ t. t ++ (shown (concat gs) ++ after))
                    (shown-passed m e es out mine packed.0.min_is packed.0.max_is)))
      ]

  pub scan_shards-Packed :
      (sst_id : ℕ) (cs : List BlockMeta) (slices : List (List BlockMeta))
      (gs : List (List KeyValue))
      → Directory file sst_id cs slices
      → Packed file (concat slices) gs
      → Sorted cmp_kv (concat gs)
      → All FitsEntry (concat gs)
      → scan_shards file start end_ max_seq cs ≡ shown (concat gs)
  unfolding scan_shards
  scan_shards-Packed sst_id [] [] [] dir packed sorted fits = unfold keep in refl
  scan_shards-Packed sst_id [] [] (g ∷ gs) dir packed sorted fits = elim packed [ ]
  scan_shards-Packed sst_id [] (s ∷ slices) gs dir packed sorted fits = elim dir [ ]
  scan_shards-Packed sst_id (c ∷ cs) [] gs dir packed sorted fits = elim dir [ ]
  scan_shards-Packed sst_id (c ∷ cs) ([] ∷ slices) gs dir packed sorted fits = elim dir [ ]
  scan_shards-Packed sst_id (c ∷ cs) ((m ∷ ms) ∷ slices) gs dir packed sorted fits =
      let parts = Packed-split file (m ∷ ms) (concat slices) gs packed in
      let here = concat parts.front in
      let later = concat parts.back in
      let all = ap concat parts.whole ∙ concat-append parts.front parts.back in
      let (mine, behind) = Sorted-append_parts here later (subst (Sorted cmp_kv) all sorted) in
      let (fit, others) = All-append_parts FitsEntry here later (subst (All FitsEntry) all fits) in
      let ih =
        scan_shards-Packed sst_id cs slices parts.back dir.3 parts.packed_back behind others in
      let whole : shown (concat gs) ≡ shown here ++ shown later =
        ap shown all ∙ shown-append here later in
      elim (Bool-cases (block_overlaps c start end_)) [
        | inl in_ ↦ rw in_ (
            rw (load_child-ShardAt file sst_id c (m ∷ ms) dir.0) (
              scan_blocks-Packed (m ∷ ms) parts.front (scan_shards file start end_ max_seq cs)
                parts.packed_front mine fit
              ∙ ap (λ t. shown here ++ t) ih
              ∙ sym whole))
        | inr out ↦
            let run = Packed-Run file m ms parts.front parts.packed_front in
            let nothing : shown here ≡ [] =
              ap shown run.all_is
              ∙ shown-passed c run.first run.others out (subst (Sorted cmp_kv) run.all_is mine)
                  (dir.1 ∙ run.min_is) (dir.2 ∙ run.max_is []) in
            rw out (ih ∙ sym (whole ∙ ap (λ t. t ++ shown later) nothing))
      ]

  scan_index :
      (sst_id : ℕ) (range : KeyRange) (bloom : BloomFilter) (size_bytes : ℕ) (index : Index)
      (gs : List (List KeyValue))
      → HoldsIndex file sst_id index gs
      → Sorted cmp_kv (concat gs)
      → All FitsEntry (concat gs)
      → scan file
          (record {
            sst_id = sst_id;
            range = range;
            bloom = bloom;
            size_bytes = size_bytes;
            index = index;
          })
          start
          end_
          max_seq
        ≡ shown (concat gs)
  unfolding scan
  scan_index sst_id range bloom size_bytes (inline blocks) gs h sorted fits =
      scan_blocks-Packed blocks gs [] h sorted fits ∙ append-nil (shown (concat gs))
  scan_index sst_id range bloom size_bytes (sharded cs) gs h sorted fits =
      scan_shards-Packed sst_id cs h.0 gs h.1 h.2 sorted fits

  -- The entries within the bounds that are not newer than `max_seq`, in order and without an error.
  pub scan-Holds :
      (fb : FastBloom) (entries : List KeyValue) (table : SsTable)
      → Holds fb file entries table
      → scan file table start end_ max_seq ≡ map ok (keep (in_scan start end_ max_seq) entries)
  scan-Holds fb entries table h =
      scan_index table.sst_id table.range table.bloom table.size_bytes table.index h.groups h.index
        (subst (Sorted cmp_kv) (sym h.all) h.sorted) (subst (All FitsEntry) (sym h.all) h.fits)
      ∙ ap shown h.all
