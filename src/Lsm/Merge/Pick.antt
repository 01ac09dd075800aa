-- ===== src/Lsm/Merge/Pick.antt =====
-- What one pull of the merge takes: a least head, and nothing else.
use mathlib.Core.List.{Perm, perm_middle}
use mathlib.Core.List.Perm
use mathlib.Core.Path.{subst}
use strata_db.Prelude.{
  ℕ, zero, suc, ◌+◌, ◌≡◌, refl, ◌⊎◌, inl, inr, List, [], ◌∷◌, ◌++◌, Option, none, some, true,
  length, length-append, All, Ordering, arith,
}
use strata_db.Prelude.Order.{IsOrder, is_le, le_of_not_lt, le_trans}
use strata_db.Lsm.Merge.{Source, refill, advance, consider, pick}

module _ {ℓ} {A : Type ℓ} where
  -- What a source has still to yield. One with no head is exhausted.
  abbrev pub items : Source A → List A
  items s = elim s.head [ none ↦ [] | some a ↦ a ∷ s.iter ]

  abbrev pub contents : List (Source A) → List A
  contents [] = []
  contents (s ∷ ss) = items s ++ contents ss

  -- The source at an index has `a` at its head.
  pub data HeadAt (a : A) : ℕ → List (Source A) → Type ℓ where
    here : {s : Source A} {ss : List (Source A)} → s.head ≡ some a → HeadAt a zero (s ∷ ss)
    there :
        {i : ℕ} {s : Source A} {ss : List (Source A)} → HeadAt a i ss → HeadAt a (suc i) (s ∷ ss)

  pub items-refill : (l : List A) → items (refill l) ≡ l
  unfolding refill
  items-refill [] = refl
  items-refill (a ∷ rest) = refl

  -- A pull takes the head away from its source, and leaves every other item where it was.
  pub contents-advance :
      {a : A} {i : ℕ} (ss : List (Source A))
      → HeadAt a i ss
      → Perm (contents ss) (a ∷ contents (advance i ss))
  unfolding advance
  contents-advance [] h = elim h [ ]
  contents-advance {a} (s ∷ ss) (here e) =
      rw (e) (rw (items-refill s.iter) (Perm.refl (a ∷ s.iter ++ contents ss)))
  contents-advance (s ∷ ss) (there h) =
      Perm.trans (Perm.append_left (items s) (contents-advance ss h))
        (perm_middle (items s) (contents (advance _ ss)))

  pub length-contents-advance :
      {a : A} {i : ℕ} (ss : List (Source A))
      → HeadAt a i ss
      → length (contents ss) ≡ suc (length (contents (advance i ss)))
  unfolding advance
  length-contents-advance [] h = elim h [ ]
  length-contents-advance (s ∷ ss) (here e) = rw e (rw (items-refill s.iter))
  length-contents-advance {i = suc i} (s ∷ ss) (there h) = omega (
    arith,
    length-append (items s) (contents ss),
    length-append (items s) (contents (advance i ss)),
    length-contents-advance ss h,
  )

module _ {ℓ} {A : Type ℓ} (cmp : A → A → Ordering) (o : IsOrder cmp) where
  abbrev pub Le : A → A → Type 0
  Le a b = is_le (cmp a b) ≡ true

  abbrev pub LeHead : A → Option A → Type 0
  LeHead a none = Unit
  LeHead a (some b) = Le a b

  abbrev LeBest : A → Option (ℕ × A) → Type 0
  LeBest a none = Unit
  LeBest a (some (i, b)) = Le a b

  -- What is at most the best head after a round is at most both that went into it.
  consider-Le :
      (a : A) (h : Option A) (i : ℕ) (best : Option (ℕ × A))
      → LeBest a (consider cmp h i best)
      → LeHead a h × LeBest a best
  unfolding consider
  consider-Le a none i none l = (tt, tt)
  consider-Le a none i (some (k, b)) l = (tt, l)
  consider-Le a (some c) i none l = (l, tt)
  consider-Le a (some c) i (some (k, b)) l =
      ground (arith, le_of_not_lt cmp o c b, le_trans cmp o a c b, le_trans cmp o a b c)

  consider-at :
      (h : Option A) (i : ℕ) (best : Option (ℕ × A)) (j : ℕ) (a : A)
      → consider cmp h i best ≡ some (j, a)
      → (best ≡ some (j, a)) ⊎ (h ≡ some a) × (i ≡ j)
  unfolding consider
  consider-at none i none j a e = cc
  consider-at none i (some (k, b)) j a e = inl e
  consider-at (some c) i none j a e = inr (ground arith, ground arith)
  consider-at (some c) i (some (k, b)) j a e = ground arith

  abbrev pub LeHeads : A → List (Source A) → Type 0
  LeHeads a ss = All (λ (s : Source A). LeHead a s.head) ss

  -- The loop over the heads: what it returns is at most every head, and stands where it says.
  pick-Le :
      (ss : List (Source A)) (i : ℕ) (best : Option (ℕ × A)) (j : ℕ) (a : A)
      → pick cmp ss i best ≡ some (j, a)
      → LeHeads a ss × LeBest a best
  unfolding pick
  pick-Le [] i best j a e = (tt, rw e (ground (arith, o.same a)))
  pick-Le (s ∷ ss) i best j a e =
      let (heads, least) = pick-Le ss (i + 1) (consider cmp s.head i best) j a e in
      let (le_head, le_best) = consider-Le a s.head i best least in ((le_head, heads), le_best)

  pick-at :
      (ss : List (Source A)) (i : ℕ) (best : Option (ℕ × A)) (j : ℕ) (a : A)
      → pick cmp ss i best ≡ some (j, a)
      → (best ≡ some (j, a)) ⊎ ((k : ℕ) × (j ≡ i + k) × HeadAt a k ss)
  unfolding pick
  pick-at [] i best j a e = inl e
  pick-at (s ∷ ss) i best j a e = elim (pick-at ss (i + 1) (consider cmp s.head i best) j a e) [
    | inl now ↦ elim (consider-at s.head i best j a now) [
      | inl old ↦ inl old
      | inr (head, ij) ↦ inr (0, omega arith, HeadAt.here head)
    ]
    | inr (k, jk, h) ↦ inr (suc k, omega arith, HeadAt.there h)
  ]

  -- One pull: the item stands at the head of the source that is advanced, and is a least head.
  pub pick-least :
      (ss : List (Source A)) (j : ℕ) (a : A)
      → pick cmp ss 0 none ≡ some (j, a)
      → HeadAt a j ss × LeHeads a ss
  pick-least ss j a e = elim (pick-at ss 0 none j a e) [
    | inl none_yet ↦ absurd (cc)
    | inr (k, jk, h) ↦ (subst (λ i. HeadAt a i ss) (omega arith) h, (pick-Le ss 0 none j a e).0)
  ]

  consider-none :
      (h : Option A) (i : ℕ) (best : Option (ℕ × A))
      → consider cmp h i best ≡ none
      → (h ≡ none) × (best ≡ none)
  unfolding consider
  consider-none none i best e = (refl, e)
  consider-none (some c) i none e = cc
  consider-none (some c) i (some (k, b)) e = ground arith

  pick-none :
      (ss : List (Source A)) (i : ℕ) (best : Option (ℕ × A))
      → pick cmp ss i best ≡ none
      → (contents ss ≡ []) × (best ≡ none)
  unfolding pick consider
  pick-none [] i best e = (refl, e)
  pick-none (s ∷ ss) i best e =
      let (rest, now) = pick-none ss (i + 1) (consider cmp s.head i best) e in
      let (no_head, no_best) = consider-none s.head i best now in (rw no_head rest, no_best)

  -- No head is left only when nothing is.
  pub contents-nil_of_pick : (ss : List (Source A)) → pick cmp ss 0 none ≡ none → contents ss ≡ []
  contents-nil_of_pick ss e = (pick-none ss 0 none e).0
