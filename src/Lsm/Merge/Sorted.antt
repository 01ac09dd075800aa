-- ===== src/Lsm/Merge/Sorted.antt =====
-- The merge as a whole: sorted sources give a sorted permutation of what they hold.
use mathlib.Core.List.{Perm}
use mathlib.Core.List.Perm
use mathlib.Core.Path.{subst}
use strata_db.Prelude.{
  ℕ, zero, suc, ◌≤◌, ◌≡◌, refl, sym, ap, inl, inr, List, [], ◌∷◌, ◌++◌, Option, none, some, length,
  All, All-append, All-map, All-append_parts, Option-cases, true, Ordering, arith,
}
use strata_db.Prelude.Order.{IsOrder, is_le, le_trans}
use strata_db.Lsm.Merge.{Source, new, advance, pick, next, collect}
use strata_db.Lsm.Merge.Pick.{
  items, contents, HeadAt, Le, LeHead, LeHeads, items-refill, contents-advance,
  length-contents-advance, pick-least, contents-nil_of_pick,
}

module _ {ℓ} {A : Type ℓ} where
  abbrev pub concat : List (List A) → List A
  concat [] = []
  concat (l ∷ ls) = l ++ concat ls

  pub contents-new : (ls : List (List A)) → contents (new ls) ≡ concat ls
  unfolding new
  contents-new [] = refl
  contents-new (l ∷ ls) = rw (items-refill l) (ap (λ t. l ++ t) (contents-new ls))

  length-eq-zero : (l : List A) → length l ≡ 0 → l ≡ []
  length-eq-zero [] h = refl
  length-eq-zero (a ∷ l) h = absurd (omega arith)

  -- A predicate that holds of everything in reach holds after a pull, and of what was pulled.
  All-advance {κ} :
      (P : A → Type κ) {a : A} {i : ℕ} (ss : List (Source A))
      → HeadAt a i ss
      → All P (contents ss)
      → P a × All P (contents (advance i ss))
  unfolding advance
  All-advance P [] h all = elim h [ ]
  All-advance P (s ∷ ss) (HeadAt.here e) all =
      rw (items-refill s.iter)
        (subst (λ h. All P ((elim h [ none ↦ [] | some b ↦ b ∷ s.iter ]) ++ contents ss)) e all)
  All-advance P {i = suc i} (s ∷ ss) (HeadAt.there h) all =
      let (left, right) = All-append_parts P (items s) (contents ss) all in
      let (here, after) = All-advance P ss h right in
      (here, All-append P (items s) (contents (advance i ss)) left after)

module _ {ℓ} {A : Type ℓ} (cmp : A → A → Ordering) where
  -- Ascending: each item is at most every later one.
  abbrev pub Sorted : List A → Type 0
  Sorted [] = Unit
  Sorted (a ∷ l) = All (λ (b : A). is_le (cmp a b) ≡ true) l × Sorted l

  -- Every source is ascending.
  abbrev pub AllSorted : List (List A) → Type 0
  AllSorted [] = Unit
  AllSorted (l ∷ ls) = Sorted l × AllSorted ls

  abbrev SourcesSorted : List (Source A) → Type 0
  SourcesSorted [] = Unit
  SourcesSorted (s ∷ ss) = Sorted (items s) × SourcesSorted ss

  new-SourcesSorted : (ls : List (List A)) → AllSorted ls → SourcesSorted (new ls)
  unfolding new
  new-SourcesSorted [] h = tt
  new-SourcesSorted (l ∷ ls) h = (rw (items-refill l) h.0, new-SourcesSorted ls h.1)

  advance-SourcesSorted :
      {a : A} {i : ℕ} (ss : List (Source A))
      → HeadAt a i ss
      → SourcesSorted ss
      → SourcesSorted (advance i ss)
  unfolding advance
  advance-SourcesSorted [] h sorted = elim h [ ]
  advance-SourcesSorted (s ∷ ss) (HeadAt.here e) sorted = (
    rw (items-refill s.iter)
        (subst (λ h. Sorted (elim h [ none ↦ [] | some b ↦ b ∷ s.iter ])) e sorted.0).1,
    sorted.1,
  )
  advance-SourcesSorted {i = suc i} (s ∷ ss) (HeadAt.there h) sorted =
      (sorted.0, advance-SourcesSorted ss h sorted.1)

  module _ (o : IsOrder cmp) where
    All-Le-items :
        (a : A) (h : Option A) (iter : List A)
        → LeHead cmp o a h
        → Sorted (elim h [ none ↦ [] | some b ↦ b ∷ iter ])
        → All (Le cmp o a) (elim h [ none ↦ [] | some b ↦ b ∷ iter ])
    All-Le-items a none iter le sorted = tt
    All-Le-items a (some b) iter le sorted =
        (le, All-map (Le cmp o b) (Le cmp o a) (λ c k. le_trans cmp o a b c le k) iter sorted.0)

    -- What is at most every head is at most everything, as the sources ascend.
    All-Le-contents :
        (a : A) (ss : List (Source A))
        → LeHeads cmp o a ss
        → SourcesSorted ss
        → All (Le cmp o a) (contents ss)
    All-Le-contents a [] heads sorted = tt
    All-Le-contents a (s ∷ ss) heads sorted =
        All-append (Le cmp o a) (items s) (contents ss)
          (All-Le-items a s.head s.iter heads.0 sorted.0) (All-Le-contents a ss heads.1 sorted.1)

    collect_stop :
        (fuel : ℕ) (ss : List (Source A))
        → pick cmp ss 0 none ≡ none
        → collect cmp (suc fuel) ss ≡ []
    unfolding collect next
    collect_stop fuel ss e = ground arith

    collect_pull :
        (fuel : ℕ) (ss : List (Source A)) (i : ℕ) (a : A)
        → pick cmp ss 0 none ≡ some (i, a)
        → collect cmp (suc fuel) ss ≡ a ∷ collect cmp fuel (advance i ss)
    unfolding collect next
    collect_pull fuel ss i a e = ground arith

    collect-All {κ} :
        (P : A → Type κ) (fuel : ℕ) (ss : List (Source A))
        → All P (contents ss)
        → All P (collect cmp fuel ss)
    collect-All P zero ss all = unfold collect in tt
    collect-All P (suc fuel) ss all = elim (Option-cases (pick cmp ss 0 none)) [
      | inl stop ↦ rw (collect_stop fuel ss stop) tt
      | inr ((i, a), e) ↦
          let (here, after) = All-advance P ss (pick-least cmp o ss i a e).0 all in
          rw (collect_pull fuel ss i a e) (here, collect-All P fuel (advance i ss) after)
    ]

    collect-Sorted :
        (fuel : ℕ) (ss : List (Source A)) → SourcesSorted ss → Sorted (collect cmp fuel ss)
    collect-Sorted zero ss sorted = unfold collect in tt
    collect-Sorted (suc fuel) ss sorted = elim (Option-cases (pick cmp ss 0 none)) [
      | inl stop ↦ rw (collect_stop fuel ss stop) tt
      | inr ((i, a), e) ↦
          let (at, heads) = pick-least cmp o ss i a e in
          let after = All-advance (Le cmp o a) ss at (All-Le-contents a ss heads sorted) in
          rw (collect_pull fuel ss i a e) (
            collect-All (Le cmp o a) fuel (advance i ss) after.1,
            collect-Sorted fuel (advance i ss) (advance-SourcesSorted ss at sorted),
          )
    ]

    collect-perm :
        (fuel : ℕ) (ss : List (Source A))
        → length (contents ss) ≤ fuel
        → Perm (collect cmp fuel ss) (contents ss)
    collect-perm zero ss enough =
        rw (length-eq-zero (contents ss) (omega arith)) (unfold collect in Perm.refl [])
    collect-perm (suc fuel) ss enough = elim (Option-cases (pick cmp ss 0 none)) [
      | inl stop ↦
          rw (collect_stop fuel ss stop) (rw (contents-nil_of_pick cmp o ss stop) (Perm.refl []))
      | inr ((i, a), e) ↦
          let (at, heads) = pick-least cmp o ss i a e in
          rw (collect_pull fuel ss i a e) (
            Perm.trans
              (Perm.cons a
                (collect-perm fuel (advance i ss) (omega (arith, length-contents-advance ss at))))
              (Perm.symm (contents-advance ss at)))
    ]

    -- For a comparator that is a total preorder, the merge of sorted sources is sorted, and it is a
    -- permutation of all their items, in at most as many pulls as there are items.
    pub merge_sorts :
        (ls : List (List A)) (fuel : ℕ)
        → AllSorted ls
        → length (concat ls) ≤ fuel
        → Sorted (collect cmp fuel (new ls)) × Perm (collect cmp fuel (new ls)) (concat ls)
    merge_sorts ls fuel sorted enough = (
      collect-Sorted fuel (new ls) (new-SourcesSorted ls sorted),
      rw (← contents-new ls) (
          collect-perm fuel (new ls) (subst (λ l. length l ≤ fuel) (sym (contents-new ls)) enough)),
    )
