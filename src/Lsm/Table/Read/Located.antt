-- ===== src/Lsm/Table/Read/Located.antt =====
-- Finding the block of a key, through an inline index or through the shards of a large table.
use strata_db.Prelude.{
  ℕ, ◌≡◌, refl, sym, ap, ◌∙◌, inl, inr, List, [], ◌∷◌, ◌++◌, Option, none, some, Bool, true, false,
  ◌&&◌, All, All-append_parts, Bool-cases,
}
use strata_db.Prelude.Order.{is_le, cmp_bytes}
use strata_db.Lsm.Key.{KeyValue, cmp_kv}
use strata_db.Lsm.Merge.Sorted.{Sorted, concat}
use strata_db.Lsm.Resolve.Newest.{newest}
use strata_db.Lsm.Table.Header.{BlockMeta}
use strata_db.Lsm.Table.Build.{last_key}
use strata_db.Lsm.Table.Build.Packed.{Stored, Packed}
use strata_db.Lsm.Table.Read.{covering}
use strata_db.Lsm.Table.Read.Covering.{
  or_else, Sorted-append_parts, newest-append, newest-outside, newest-covered,
}

-- The block that a lookup of `k` settles on, and its entries.
pub record Located (P : KeyValue → Type 0) (file k : List ℕ) (all : List KeyValue) (m : BlockMeta)
    : Type 0 where
  pub first : KeyValue
  pub others : List KeyValue
  pub stored : Stored file m first others
  pub sorted : Sorted cmp_kv (first ∷ others)
  pub each : All P (first ∷ others)
  pub decides : newest k (first ∷ others) ≡ newest k all

pub and-right : (a b : Bool) → (a && b) ≡ true → b ≡ true
and-right true b h = h
and-right false true h = refl
and-right false false h = h

module _ (P : KeyValue → Type 0) (file k : List ℕ) where
  abbrev pub Covered : List KeyValue → Option BlockMeta → Type 0
  Covered all none = newest k all ≡ none
  Covered all (some m) = Located P file k all m

  pub Covered-same :
      (xs ys : List KeyValue) (o : Option BlockMeta)
      → newest k xs ≡ newest k ys
      → Covered xs o
      → Covered ys o
  Covered-same xs ys none e h = sym e ∙ h
  Covered-same xs ys (some m) e h = record {
    first = h.first;
    others = h.others;
    stored = h.stored;
    sorted = h.sorted;
    each = h.each;
    decides = h.decides ∙ e;
  }

  -- A range that does not hold `k` can be passed over.
  pub newest-skip :
      (e : KeyValue) (es r : List KeyValue)
      → Sorted cmp_kv ((e ∷ es) ++ r)
      → (is_le (cmp_bytes e.key.user_key k) && is_le (cmp_bytes k (last_key e.key.user_key es)))
        ≡ false
      → newest k ((e ∷ es) ++ r) ≡ newest k r
  newest-skip e es r sorted out =
      newest-append k (e ∷ es) r sorted
      ∙ ap (λ o. or_else o (newest k r))
          (newest-outside k e es (Sorted-append_parts (e ∷ es) r sorted).0 out)

  pub covering-Covered :
      (ms : List BlockMeta) (gs : List (List KeyValue))
      → Packed file ms gs
      → Sorted cmp_kv (concat gs)
      → All P (concat gs)
      → Covered (concat gs) (covering ms k)
  unfolding covering
  covering-Covered [] [] packed sorted each = unfold newest in refl
  covering-Covered [] (g ∷ gs) packed sorted each = elim packed [ ]
  covering-Covered (m ∷ ms) [] packed sorted each = elim packed [ ]
  covering-Covered (m ∷ ms) ([] ∷ gs) packed sorted each = elim packed [ ]
  covering-Covered (m ∷ ms) ((e ∷ es) ∷ gs) packed sorted each =
      let stored = packed.0 in
      let range : (is_le (cmp_bytes m.min_key k) && is_le (cmp_bytes k m.max_key)) ≡ (
          is_le (cmp_bytes e.key.user_key k) && is_le (cmp_bytes k (last_key e.key.user_key es))) =
        ap (λ a. is_le (cmp_bytes a k) && is_le (cmp_bytes k m.max_key)) stored.min_is
        ∙ ap (λ b. is_le (cmp_bytes e.key.user_key k) && is_le (cmp_bytes k b)) stored.max_is in
      let (mine, behind) = Sorted-append_parts (e ∷ es) (concat gs) sorted in
      let (good, others) = All-append_parts P (e ∷ es) (concat gs) each in
      elim (Bool-cases (is_le (cmp_bytes m.min_key k) && is_le (cmp_bytes k m.max_key))) [
        | inl covers ↦ rw covers (record {
          first = e;
          others = es;
          stored = stored;
          sorted = mine;
          each = good;
          decides =
              sym (newest-covered k e es (concat gs) sorted (and-right _ _ (sym range ∙ covers)));
        })
        | inr passes ↦ rw passes (
            Covered-same (concat gs) ((e ∷ es) ++ concat gs) (covering ms k)
              (sym (newest-skip e es (concat gs) sorted (sym range ∙ passes)))
              (covering-Covered ms gs packed.1 behind others))
      ]
