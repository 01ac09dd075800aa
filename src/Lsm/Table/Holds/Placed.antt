-- ===== src/Lsm/Table/Holds/Placed.antt =====
-- `put_index`: the blocks are found through the index that is put behind them.
use mathlib.Core.Path.{subst}
use strata_db.Prelude.{
  ℕ, ◌^◌, ◌≤◌, ◌<◌, ◌≡◌, refl, sym, inl, inr, List, [], ◌∷◌, ◌++◌, append-nil, true, false, All,
  All-append_parts, Bool-cases, leb, length, length-append, arith,
}
use strata_db.Lsm.Key.{KeyValue}
use strata_db.Lsm.Merge.Sorted.{concat}
use strata_db.Lsm.Table.Header.{BlockMeta, Index, inline, sharded, child}
use strata_db.Lsm.Table.Header.RoundTrip.{FitsMeta, FitMetas, FitsIndex, FitsHeader}
use strata_db.Lsm.Table.Build.{chunks, append_shards}
use strata_db.Lsm.Table.Build.Packed.{Packed, Packed-append}
use strata_db.Lsm.Table.Write.{put_index}
use strata_db.Lsm.Table.Write.Fits.{chunks-IsSlicing}
use strata_db.Lsm.Table.Write.Sharded.{Directory-append, append_shards-Appended, Directory-FitsMeta}
use strata_db.Lsm.Table.Holds.{HoldsIndex}

pub HoldsIndex-append :
    (file more : List ℕ) (sst_id : ℕ) (index : Index) (gs : List (List KeyValue))
    → HoldsIndex file sst_id index gs
    → HoldsIndex (file ++ more) sst_id index gs
HoldsIndex-append file more sst_id (inline blocks) gs h = Packed-append file more blocks gs h
HoldsIndex-append file more sst_id (sharded cs) gs h =
    (h.0, Directory-append file more sst_id cs h.0 h.1, Packed-append file more (concat h.0) gs h.2)

-- Every shard fits a header as all blocks together do.
slices-FitsHeader :
    (sst_id : ℕ) (slices : List (List BlockMeta))
    → sst_id < 2 ^ 64
    → All FitsMeta (concat slices)
    → length (concat slices) < 2 ^ 32
    → All (λ slice. FitsHeader (child sst_id slice)) slices
slices-FitsHeader sst_id [] id fits few = tt
slices-FitsHeader sst_id (s ∷ slices) id fits few =
    let (mine, others) = All-append_parts FitsMeta s (concat slices) fits in
    (
      (id, (omega (arith, length-append s (concat slices)), mine)),
      slices-FitsHeader sst_id slices id others (omega (arith, length-append s (concat slices))),
    )

slices-count :
    (slices : List (List BlockMeta))
    → All (λ slice. 1 ≤ length slice) slices
    → length slices ≤ length (concat slices)
slices-count [] h = omega arith
slices-count (s ∷ slices) h =
    omega (arith, h.0, slices-count slices h.1, length-append s (concat slices))

-- The index behind the blocks, inline or in shards.
pub record Placed (sst_id : ℕ) (buf : List ℕ) (gs : List (List KeyValue)) (final : List ℕ)
    (index : Index) : Type 0 where
  pub more : List ℕ
  pub grows : final ≡ buf ++ more
  pub holds : HoldsIndex final sst_id index gs
  pub fits : FitsIndex index

put_index-sharded :
    (per_chunk sst_id : ℕ) (buf : List ℕ) (blocks : List BlockMeta) (gs : List (List KeyValue))
    → 1 ≤ per_chunk
    → sst_id < 2 ^ 64
    → Packed buf blocks gs
    → FitMetas blocks
    → length (append_shards sst_id buf (chunks (length blocks) per_chunk blocks)).0 < 2 ^ 32
    → let r = append_shards sst_id buf (chunks (length blocks) per_chunk blocks) in
      Placed sst_id buf gs r.0 (sharded r.1)
put_index-sharded per_chunk sst_id buf blocks gs one id packed fits small =
    let slices = chunks (length blocks) per_chunk blocks in
    let cut = chunks-IsSlicing (length blocks) per_chunk blocks (omega arith) one in
    let few = subst (λ ms. length ms < 2 ^ 32) (sym cut.whole) fits.0 in
    let done =
      append_shards-Appended sst_id buf slices cut.nonempty
        (slices-FitsHeader sst_id slices id (subst (All FitsMeta) (sym cut.whole) fits.1) few)
        small in
    let r = append_shards sst_id buf slices in
    record {
      more = done.more;
      grows = done.grows;
      holds = (
        slices,
        done.dir,
        subst (λ t. Packed t (concat slices) gs) (sym done.grows)
            (Packed-append buf done.more (concat slices) gs
              (subst (λ ms. Packed buf ms gs) (sym cut.whole) packed)),
      );
      fits = (
        omega (arith, done.count, slices-count slices cut.nonempty, few),
        Directory-FitsMeta r.0 sst_id r.1 slices done.dir small,
      );
    }

pub put_index-few :
    (per_chunk sst_id : ℕ) (buf : List ℕ) (blocks : List BlockMeta)
    → leb (length blocks) per_chunk ≡ true
    → put_index per_chunk sst_id buf blocks ≡ (buf, inline blocks)
unfolding put_index
put_index-few per_chunk sst_id buf blocks few = rw (few, put_index) refl

pub put_index-many :
    (per_chunk sst_id : ℕ) (buf : List ℕ) (blocks : List BlockMeta)
    → leb (length blocks) per_chunk ≡ false
    → put_index per_chunk sst_id buf blocks ≡ (
        let r = append_shards sst_id buf (chunks (length blocks) per_chunk blocks) in
        (r.0, sharded r.1))
unfolding put_index
put_index-many per_chunk sst_id buf blocks many = rw (many, put_index) refl

pub put_index-Placed :
    (per_chunk sst_id : ℕ) (buf : List ℕ) (blocks : List BlockMeta) (gs : List (List KeyValue))
    → 1 ≤ per_chunk
    → sst_id < 2 ^ 64
    → Packed buf blocks gs
    → FitMetas blocks
    → length (put_index per_chunk sst_id buf blocks).0 < 2 ^ 32
    → Placed sst_id buf gs
        (put_index per_chunk sst_id buf blocks).0
        (put_index per_chunk sst_id buf blocks).1
put_index-Placed per_chunk sst_id buf blocks gs one id packed fits =
    let small_case : List ℕ × Index → Type 0 =
      λ r. length r.0 < 2 ^ 32 → Placed sst_id buf gs r.0 r.1 in
    elim (Bool-cases (leb (length blocks) per_chunk)) [
      | inl few ↦
          subst small_case (sym (put_index-few per_chunk sst_id buf blocks few)) (λ small. record {
            more = [];
            grows = sym (append-nil buf);
            holds = packed;
            fits = fits;
          })
      | inr many ↦
          subst small_case (sym (put_index-many per_chunk sst_id buf blocks many))
            (put_index-sharded per_chunk sst_id buf blocks gs one id packed fits)
    ]
