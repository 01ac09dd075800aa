-- ===== src/Lsm/Table/Write/Fits.antt =====
-- Metas of stored blocks fit the fields of a header.
use strata_db.Prelude.{
  ℕ, zero, suc, ◌^◌, ◌≤◌, ◌<◌, ◌≡◌, refl, sym, ap, ◌∙◌, List, [], ◌∷◌, ◌++◌, length, length-append,
  length-take, length-drop, take, drop, All, All-append_parts, arith,
}
use mathlib.Core.Path.{subst}
use strata_db.Lsm.Key.{KeyValue}
use strata_db.Lsm.Data.RoundTrip.{FitsEntry}
use strata_db.Lsm.Merge.Sorted.{concat}
use strata_db.Lsm.Table.Header.{BlockMeta}
use strata_db.Lsm.Table.Header.RoundTrip.{FitsMeta}
use strata_db.Lsm.Table.Build.{last_key, chunks}
use strata_db.Lsm.Table.Build.Packed.{Packed}

last_key-short :
    (e : KeyValue) (es : List KeyValue)
    → All FitsEntry (e ∷ es)
    → length (last_key e.key.user_key es) < 2 ^ 32
unfolding last_key
last_key-short e [] fits = fits.0.key_len
last_key-short e (f ∷ es) fits = last_key-short f es fits.1

pub Packed-FitsMeta :
    (file : List ℕ) (ms : List BlockMeta) (gs : List (List KeyValue))
    → Packed file ms gs
    → length file < 2 ^ 32
    → All FitsEntry (concat gs)
    → All FitsMeta ms
Packed-FitsMeta file [] gs packed small fits = tt
Packed-FitsMeta file (m ∷ ms) [] packed small fits = elim packed [ ]
Packed-FitsMeta file (m ∷ ms) ([] ∷ gs) packed small fits = elim packed [ ]
Packed-FitsMeta file (m ∷ ms) ((e ∷ es) ∷ gs) packed small fits =
    let stored = packed.0 in
    let (mine, others) = All-append_parts FitsEntry (e ∷ es) (concat gs) fits in
    (
      record {
        min_len = subst (λ k. length k < 2 ^ 32) (sym stored.min_is) mine.0.key_len;
        max_len = subst (λ k. length k < 2 ^ 32) (sym stored.max_is) (last_key-short e es mine);
        offset = omega (arith, stored.within);
        len = omega (arith, stored.within);
      },
      Packed-FitsMeta file ms gs packed.1 small others,
    )

-- There are not more blocks than entries.
pub Packed-count :
    (file : List ℕ) (ms : List BlockMeta) (gs : List (List KeyValue))
    → Packed file ms gs
    → length ms ≤ length (concat gs)
Packed-count file [] gs packed = omega arith
Packed-count file (m ∷ ms) [] packed = elim packed [ ]
Packed-count file (m ∷ ms) ([] ∷ gs) packed = elim packed [ ]
Packed-count file (m ∷ ms) ((e ∷ es) ∷ gs) packed =
    omega (arith, Packed-count file ms gs packed.1, length-append es (concat gs))

-- `chunks` loses no block, and makes no empty shard.
pub record IsSlicing (ms : List BlockMeta) (slices : List (List BlockMeta)) : Type 0 where
  pub whole : concat slices ≡ ms
  pub nonempty : All (λ slice. 1 ≤ length slice) slices

take-drop : (n : ℕ) (ms : List BlockMeta) → take n ms ++ drop n ms ≡ ms
take-drop zero ms = refl
take-drop (suc n) [] = refl
take-drop (suc n) (m ∷ ms) = ap (◌∷◌ m) (take-drop n ms)

pub chunks-IsSlicing :
    (fuel per_chunk : ℕ) (ms : List BlockMeta)
    → length ms ≤ fuel
    → 1 ≤ per_chunk
    → IsSlicing ms (chunks fuel per_chunk ms)
unfolding chunks
chunks-IsSlicing zero per_chunk [] enough some_ = record { whole = refl; nonempty = tt }
chunks-IsSlicing zero per_chunk (m ∷ ms) enough some_ = absurd (omega arith)
chunks-IsSlicing (suc fuel) per_chunk [] enough some_ = record { whole = refl; nonempty = tt }
chunks-IsSlicing (suc fuel) per_chunk (m ∷ ms) enough some_ =
    let after =
      chunks-IsSlicing fuel per_chunk (drop per_chunk (m ∷ ms))
        (omega (arith, length-drop per_chunk (m ∷ ms))) some_ in
    record {
      whole = ap (λ t. take per_chunk (m ∷ ms) ++ t) after.whole ∙ take-drop per_chunk (m ∷ ms);
      nonempty = (omega (arith, length-take per_chunk (m ∷ ms)), after.nonempty);
    }
