-- ===== src/Lsm/Merge.antt =====
-- crates/lsm/src/iterator.rs, `MergeIterator`: a k-way merge by a linear scan over the heads.
pub mod Pick
pub mod Sorted
use strata_db.Prelude.{
  ℕ, zero, suc, ◌+◌, List, [], ◌∷◌, ◌++◌, map, Option, none, some, Ordering, if◌then◌else◌,
}
use strata_db.Prelude.Order.{is_lt}

-- A lazy iterator is the list of the items that it has still to yield.
pub record Source {ℓ} (A : Type ℓ) : Type ℓ where
  pub head : Option A
  pub iter : List A

module _ {ℓ} {A : Type ℓ} where
  -- `head: iter.next(), iter`
  unfoldable pub refill : List A → Source A
  refill [] = record { head = none; iter = [] }
  refill (a ∷ rest) = record { head = some a; iter = rest }

  -- `MergeIterator::new`
  unfoldable pub new : List (List A) → List (Source A)
  unfolding refill
  new = map refill

  -- `sources[idx].head = sources[idx].iter.next()`
  unfoldable pub advance : ℕ → List (Source A) → List (Source A)
  unfolding refill
  advance i [] = []
  advance zero (s ∷ ss) = refill s.iter ∷ ss
  advance (suc i) (s ∷ ss) = s ∷ advance i ss

module _ {ℓ} {A : Type ℓ} (cmp : A → A → Ordering) where
  -- One round of the loop over the heads. `min_idx` comes with the head that stands there.
  unfoldable pub consider : Option A → ℕ → Option (ℕ × A) → Option (ℕ × A)
  consider none i min_idx = min_idx
  consider (some a) i none = some (i, a)
  consider (some a) i (some (j, b)) = if is_lt (cmp a b) then some (i, a) else some (j, b)

  unfoldable pub pick : List (Source A) → ℕ → Option (ℕ × A) → Option (ℕ × A)
  unfolding consider
  pick [] i min_idx = min_idx
  pick (s ∷ ss) i min_idx = pick ss (i + 1) (consider s.head i min_idx)

  -- `next`
  unfoldable pub next : List (Source A) → Option A × List (Source A)
  unfolding pick advance
  next sources = elim (pick sources 0 none) [
    | none ↦ (none, sources)
    | some (idx, a) ↦ (some a, advance idx sources)
  ]

  -- The iterator run to its end, in at most `fuel` pulls.
  unfoldable pub collect : ℕ → List (Source A) → List A
  collect zero sources = []
  collect (suc fuel) sources =
      let (item, sources') = next sources in
      elim item [ none ↦ [] | some a ↦ a ∷ collect fuel sources' ]
