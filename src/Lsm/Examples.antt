-- ===== src/Lsm/Examples.antt =====
-- Tests of crates/lsm: the iterators, the memtable, its journal and the data blocks.
use Prim.Native.Nat.{min}
use mathlib.Core.List.{Perm}
use strata_db.Prelude.{
  ℕ, ◌+◌, ◌<◌, ◌≤◌, ◌^◌, ◌≡◌, ◌≢◌, Ordering, refl, ◌⊎◌, List, [], ◌∷◌, ◌++◌, map, true, none, some,
  if◌then◌else◌, length, All, Result, ok, err, compare, arith,
}
use strata_db.Prelude.Order.{compare-IsOrder, cmp_bytes}
use strata_db.Filesystem.Codec.{DecodeError, put_bytes, to_be_bytes}
use strata_db.Lsm.Error.{WriteError, store_full}
use strata_db.Lsm.Key.{
  OpType, put, delete, InternalKey, KeyValue, cmp_kv, cmp_key, KeyRange, contains,
}
use strata_db.Lsm.Merge.{new, collect}
use strata_db.Lsm.Merge.Sorted.{Sorted, merge_sorts}
use strata_db.Lsm.Resolve.{resolve_versions}
use strata_db.Lsm.Resolve.Newest.{newest, visible, find}
use strata_db.Lsm.Resolve.Output.{Ascending, resolver_shows_newest}
use strata_db.Lsm.Memtable.{
  BTreeMemtable, insert_entry, included, excluded, with_capacity, put_entry, get_at, scan_at, keep,
}
use strata_db.Lsm.Memtable.Insert.{Ordered, put_entry-Ordered}
use strata_db.Lsm.Memtable.Contents.{value_at, buffered, bytes_at}
use strata_db.Lsm.Memtable.Lookup.{up_to, get_at-newest}
use strata_db.Lsm.Memtable.Scan.{above_key, below_key, in_bounds, accepts, scan_at-in_bounds}
use strata_db.Lsm.Data.{encode_kv, encode_block, decode_block}
use strata_db.Lsm.Data.RoundTrip.{FitsEntry, decode_block_total, decode_block-encode_block}
use strata_db.Lsm.Overlap.{overlaps, overlaps-contains}
use strata_db.Lsm.Journaled.{Journaled, open_journaled, put_logged}
use strata_db.Lsm.Journaled.Store.{put_all, btree, btree-Clears}
use strata_db.Lsm.Journaled.Recovery.{
  FitsRecord, Reach, started, accepted, start, open_journaled-empty, journaled_recovers,
  refused_put_breaks_open,
}

abbrev version_of : ℕ → ℕ → OpType → KeyValue
version_of k seq op = record {
  key = record { user_key = k ∷ []; seq = seq; op = op };
  value = seq ∷ [];
}

-- Two versions of key 1, the newer one a tombstone, and one of key 2.
abbrev versions : List KeyValue
versions = version_of 1 5 delete ∷ version_of 1 3 put ∷ version_of 2 4 put ∷ []

versions-Sorted : Sorted cmp_kv versions
unfolding cmp_key cmp_bytes
versions-Sorted = ((refl, (refl, tt)), ((refl, tt), (tt, tt)))

versions-Ordered : Ordered versions
unfolding Ordered cmp_key cmp_bytes
versions-Ordered = ((refl, (refl, tt)), ((refl, tt), (tt, tt)))

versions-fit : All FitsEntry versions
versions-fit = (
  entry 1 5 delete (omega arith),
  (entry 1 3 put (omega arith), (entry 2 4 put (omega arith), tt)),
)
  where
    entry : (k seq : ℕ) (op : OpType) → seq < 2 ^ 64 → FitsEntry (version_of k seq op)
    entry k seq op h = record { key_len = omega arith; seq = h; value_len = omega arith }

merge_sorts_example :
    Sorted compare (collect compare 4 (new ((1 ∷ 4 ∷ []) ∷ (2 ∷ 3 ∷ []) ∷ [])))
    × Perm (collect compare 4 (new ((1 ∷ 4 ∷ []) ∷ (2 ∷ 3 ∷ []) ∷ []))) (1 ∷ 4 ∷ 2 ∷ 3 ∷ [])
merge_sorts_example =
    merge_sorts compare compare-IsOrder ((1 ∷ 4 ∷ []) ∷ (2 ∷ 3 ∷ []) ∷ []) 4
      (((refl, tt), (tt, tt)), (((refl, tt), (tt, tt)), tt)) (omega arith)

resolver_shows_newest_example :
    (out : List (List ℕ × List ℕ)) × (resolve_versions {E = DecodeError} none (map ok versions)
      ≡ map ok out)
    × Ascending out
    × ((k : List ℕ) → find k out ≡ visible (newest k versions))
resolver_shows_newest_example = resolver_shows_newest {E = DecodeError} versions versions-Sorted

abbrev narrow : KeyRange
narrow = record { min = 2 ∷ []; max = 2 ∷ 9 ∷ [] }

abbrev wide : KeyRange
wide = record { min = 1 ∷ []; max = 2 ∷ 3 ∷ [] }

abbrev table : BTreeMemtable
table = record { store = versions; capacity = 64; size = 6 }

-- At sequence number 4 the tombstone is not seen yet.
get_at-newest_example :
    get_at (1 ∷ []) 4 table ≡ visible (newest (1 ∷ []) (keep (up_to 4) versions))
get_at-newest_example = get_at-newest (1 ∷ []) 4 table versions-Ordered

scan_at-in_bounds_example : scan_at (included (1 ∷ [])) (excluded (2 ∷ [])) 4 table ≡ (
    if accepts (included (1 ∷ [])) (excluded (2 ∷ []))
    then some (keep (in_bounds (included (1 ∷ [])) (excluded (2 ∷ [])) 4) versions)
    else none)
scan_at-in_bounds_example =
    scan_at-in_bounds (included (1 ∷ [])) (excluded (2 ∷ [])) 4 table
      (omega arith, (omega arith, (omega arith, tt)))

decode_block-encode_block_example : decode_block (encode_block versions) ≡ some (ok versions)
decode_block-encode_block_example = decode_block-encode_block versions versions-fit

decode_block_total_example :
    (r : Result DecodeError (List KeyValue)) × (decode_block (0 ∷ 0 ∷ 7 ∷ []) ≡ some r)
decode_block_total_example = decode_block_total (0 ∷ 0 ∷ 7 ∷ [])

abbrev size_sum : List ℕ → ℕ
size_sum p = min (length p) 255

size_sum-u32 : (p : List ℕ) → size_sum p < 2 ^ 32
size_sum-u32 p = omega arith

-- One byte of capacity: the first record is taken whatever its size.
abbrev opened : Journaled BTreeMemtable
opened = start size_sum size_sum-u32 btree (with_capacity 1) (btree-Clears 1)

abbrev one_put : Result WriteError Unit × Journaled BTreeMemtable
one_put = put_logged size_sum btree (version_of 1 3 put) opened

record_fits : FitsRecord (version_of 1 3 put)
unfolding encode_kv put_bytes to_be_bytes
record_fits = record { entry = versions-fit.1.0; len = omega arith }

one_put-accepted : put_logged size_sum btree (version_of 1 3 put) opened ≡ (ok tt, one_put.1)
unfolding put_logged put_entry with_capacity start
one_put-accepted = refl

one_put-Reach :
    Reach size_sum size_sum-u32 btree
      (with_capacity 1)
      (btree-Clears 1)
      one_put.1
      ([] ++ (version_of 1 3 put ∷ []))
one_put-Reach =
    accepted opened one_put.1 [] (version_of 1 3 put)
      (started opened
        (open_journaled-empty size_sum size_sum-u32 btree (with_capacity 1) (btree-Clears 1)))
      record_fits one_put-accepted

journaled_recovers_example :
    (put_all btree (version_of 1 3 put ∷ []) (with_capacity 1) ≡ ok one_put.1.inner)
    × (open_journaled size_sum btree one_put.1.journal.file.bytes (with_capacity 1) ≡ ok one_put.1)
journaled_recovers_example =
    journaled_recovers size_sum size_sum-u32 btree (with_capacity 1) (btree-Clears 1) one_put.1
      (version_of 1 3 put ∷ []) one_put-Reach

second_put-refused : btree.put (version_of 1 3 put) one_put.1.inner ≡ err store_full
unfolding put_logged put_entry with_capacity start
second_put-refused = refl

refused_put_breaks_open_example :
    (s' : Journaled BTreeMemtable) × (put_logged size_sum btree (version_of 1 3 put) one_put.1
      ≡ (err store_full, s'))
    × (open_journaled size_sum btree s'.journal.file.bytes (with_capacity 1) ≡ err store_full)
refused_put_breaks_open_example =
    refused_put_breaks_open size_sum size_sum-u32 btree (with_capacity 1) (btree-Clears 1) one_put.1
      (version_of 1 3 put ∷ []) (version_of 1 3 put) store_full one_put-Reach record_fits
      second_put-refused

abbrev grown_table : BTreeMemtable
grown_table = record {
  store = version_of 1 5 delete ∷ version_of 1 4 put ∷ version_of 1 3 put ∷ version_of 2 4 put ∷ [];
  capacity = 64;
  size = 8;
}

put-grows : put_entry (version_of 1 4 put) table ≡ ok grown_table
unfolding put_entry insert_entry cmp_key cmp_bytes
put-grows = refl

put_entry-Ordered_example :
    Ordered grown_table.store
    × (value_at (version_of 1 4 put).key grown_table.store ≡ some (version_of 1 4 put).value)
    × ((k : InternalKey)
        → cmp_key k (version_of 1 4 put).key ≢ Ordering.eq
        → value_at k grown_table.store ≡ value_at k table.store)
    × (8 + buffered table.store
        ≡ table.size + (buffered grown_table.store + bytes_at (version_of 1 4 put).key table.store))
    × ((table.store ≡ []) ⊎ (grown_table.size ≤ 64))
put_entry-Ordered_example =
    put_entry-Ordered (version_of 1 4 put) table grown_table versions-Ordered put-grows

wide-holds : contains wide (2 ∷ []) ≡ true
unfolding contains cmp_bytes
wide-holds = refl

behind_start : above_key (excluded (1 ∷ [])) (2 ∷ []) ≡ true
unfolding cmp_bytes
behind_start = refl

not_past_end : below_key (included (2 ∷ [])) (2 ∷ []) ≡ true
unfolding cmp_bytes
not_past_end = refl

overlaps-contains_example : overlaps wide (excluded (1 ∷ [])) (included (2 ∷ [])) ≡ true
overlaps-contains_example =
    overlaps-contains wide (excluded (1 ∷ [])) (included (2 ∷ [])) (2 ∷ []) wide-holds behind_start
      not_past_end
