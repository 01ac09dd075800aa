-- ===== src/Lsm/Table/Write/Sharded.antt =====
-- `append_shards`: the directory points at shards that hold what it was cut from.
use mathlib.Core.Path.{subst}
use native.Mathlib.Nat.{mod-eq_of_lt}
use strata_db.Prelude.{
  take-drop-append, ℕ, suc, ◌+◌, ◌%◌, ◌^◌, ◌≤◌, ◌<◌, ◌≡◌, refl, sym, ap, ◌∙◌, List, [], ◌∷◌, ◌++◌,
  append_assoc, append-nil, length, length-append, take, drop, take-append, drop-append, All, arith,
}
use strata_db.Lsm.Table.Header.{BlockMeta, child, encode_header}
use strata_db.Lsm.Table.Header.RoundTrip.{FitsMeta, FitsHeader}
use strata_db.Lsm.Table.Build.{append_shards, first_min, last_max}
use strata_db.Lsm.Table.Read.Opened.{ShardAt}
use strata_db.Lsm.Table.Read.Shards.{Directory}

pub ShardAt-append :
    (file more : List ℕ) (sst_id : ℕ) (c : BlockMeta) (slice : List BlockMeta)
    → ShardAt file sst_id c slice
    → ShardAt (file ++ more) sst_id c slice
ShardAt-append file more sst_id c slice at = record {
  bytes_at = take-drop-append c.len c.offset file more at.within ∙ at.bytes_at;
  within = omega (arith, at.within, length-append file more);
  fits = at.fits;
}

pub Directory-append :
    (file more : List ℕ) (sst_id : ℕ) (cs : List BlockMeta) (slices : List (List BlockMeta))
    → Directory file sst_id cs slices
    → Directory (file ++ more) sst_id cs slices
Directory-append file more sst_id [] [] dir = tt
Directory-append file more sst_id [] (s ∷ slices) dir = elim dir [ ]
Directory-append file more sst_id (c ∷ cs) [] dir = elim dir [ ]
Directory-append file more sst_id (c ∷ cs) ([] ∷ slices) dir = elim dir [ ]
Directory-append file more sst_id (c ∷ cs) ((m ∷ ms) ∷ slices) dir = (
  ShardAt-append file more sst_id c (m ∷ ms) dir.0,
  dir.1,
  dir.2,
  Directory-append file more sst_id cs slices dir.3,
)

shard_ref : List BlockMeta → ℕ → List ℕ → BlockMeta
shard_ref slice offset bytes = record {
  min_key = first_min slice;
  max_key = last_max [] slice;
  offset = offset;
  len = length bytes % 2 ^ 32;
}

pub record Appended (sst_id : ℕ) (buf : List ℕ) (slices : List (List BlockMeta)) (final : List ℕ)
    (refs : List BlockMeta) : Type 0 where
  pub more : List ℕ
  pub grows : final ≡ buf ++ more
  pub dir : Directory final sst_id refs slices
  pub count : length refs ≡ length slices

pub append_shards-Appended :
    (sst_id : ℕ) (buf : List ℕ) (slices : List (List BlockMeta))
    → All (λ slice. 1 ≤ length slice) slices
    → All (λ slice. FitsHeader (child sst_id slice)) slices
    → length (append_shards sst_id buf slices).0 < 2 ^ 32
    → Appended sst_id buf slices
        (append_shards sst_id buf slices).0
        (append_shards sst_id buf slices).1
unfolding append_shards
append_shards-Appended sst_id buf [] nonempty fits small = record {
  more = [];
  grows = sym (append-nil buf);
  dir = tt;
  count = refl;
}
append_shards-Appended sst_id buf ([] ∷ slices) nonempty fits small =
    absurd (omega (arith, nonempty.0))
append_shards-Appended sst_id buf ((m ∷ ms) ∷ slices) nonempty fits small =
    let bytes = encode_header (child sst_id (m ∷ ms)) in
    let after = append_shards-Appended sst_id (buf ++ bytes) slices nonempty.1 fits.1 small in
    let grows = after.grows ∙ append_assoc buf bytes after.more in
    let final = (append_shards sst_id (buf ++ bytes) slices).0 in
    let whole : length final ≡ length buf + (length bytes + length after.more) =
      ap length grows
      ∙ length-append buf (bytes ++ after.more)
      ∙ ap (λ n. length buf + n) (length-append bytes after.more) in
    let len : length bytes % 2 ^ 32 ≡ length bytes = mod-eq_of_lt (omega (arith, whole, small)) in
    record {
      more = bytes ++ after.more;
      grows = grows;
      dir = (
        record {
          bytes_at =
              ap (λ n. take n (drop (length buf) final)) len
              ∙ ap (λ t. take (length bytes) (drop (length buf) t)) grows
              ∙ ap (take (length bytes)) (drop-append (length buf) buf (bytes ++ after.more) refl)
              ∙ take-append (length bytes) bytes after.more refl;
          within = omega (arith, len, whole);
          fits = fits.0;
        },
        refl,
        refl,
        after.dir,
      );
      count = ap suc after.count;
    }

pub last_max-short :
    (k : List ℕ) (m : BlockMeta) (ms : List BlockMeta)
    → All FitsMeta (m ∷ ms)
    → length (last_max k (m ∷ ms)) < 2 ^ 32
unfolding last_max
last_max-short k m [] fits = fits.0.max_len
last_max-short k m (n ∷ ns) fits = last_max-short m.max_key n ns fits.1

pub append_shards-grows :
    (sst_id : ℕ) (buf : List ℕ) (slices : List (List BlockMeta))
    → length buf ≤ length (append_shards sst_id buf slices).0
unfolding append_shards
append_shards-grows sst_id buf [] = omega arith
append_shards-grows sst_id buf (slice ∷ slices) =
    let bytes = encode_header (child sst_id slice) in
    omega (arith, append_shards-grows sst_id (buf ++ bytes) slices, length-append buf bytes)

-- The directory fits the root header as its shards do.
pub Directory-FitsMeta :
    (file : List ℕ) (sst_id : ℕ) (cs : List BlockMeta) (slices : List (List BlockMeta))
    → Directory file sst_id cs slices
    → length file < 2 ^ 32
    → All FitsMeta cs
Directory-FitsMeta file sst_id [] slices dir small = tt
Directory-FitsMeta file sst_id (c ∷ cs) [] dir small = elim dir [ ]
Directory-FitsMeta file sst_id (c ∷ cs) ([] ∷ slices) dir small = elim dir [ ]
Directory-FitsMeta file sst_id (c ∷ cs) ((m ∷ ms) ∷ slices) dir small =
    let within = dir.0.within in
    let metas = dir.0.fits.1.1 in
    (
      record {
        min_len = subst (λ k. length k < 2 ^ 32) (sym dir.1) metas.0.min_len;
        max_len = subst (λ k. length k < 2 ^ 32) (sym dir.2) (last_max-short [] m ms metas);
        offset = omega (arith, within);
        len = omega (arith, within);
      },
      Directory-FitsMeta file sst_id cs slices dir.3 small,
    )
