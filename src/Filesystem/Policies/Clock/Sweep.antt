-- ===== src/Filesystem/Policies/Clock/Sweep.antt =====
-- `Clock` never gives up while an id may be evicted: two sweeps are enough.
use mathlib.Core.Path.{subst}
use strata_db.Prelude.{
  ℕ, zero, suc, ◌+◌, ◌*◌, ◌≡◌, refl, sym, ◌∙◌, inl, inr, List, [], ◌∷◌, ◌++◌, append_assoc,
  append-nil, some, Bool, true, false, Bool-cases, length, length-append, ◌==◌, if◌then◌else◌,
  arith,
}
use strata_db.Prelude.Maps.{lookup, insert, lookup-insert}
use strata_db.Filesystem.Policies.{or_default}
use strata_db.Filesystem.Policies.Clock.{Clock, sweep, evict_candidate}

bit : ℕ → List (ℕ × Bool) → Bool
bit x bits = or_default false (lookup x bits)

abbrev clock : List ℕ → List (ℕ × Bool) → Clock
clock ring bits = record { ring = ring; referenced = bits }

module _ (evictable : ℕ → Bool) where
  -- A sweep that finds an evictable id.
  pub data Found (steps : ℕ) (p : Clock) : Type 0 where
    found :
        (v : ℕ) (q : Clock)
        → sweep evictable steps p ≡ (some v, q)
        → evictable v ≡ true
        → Found steps p

  abbrev Keeps : List (ℕ × Bool) → List (ℕ × Bool) → Type 0
  Keeps bits bits' = (x : ℕ) → bit x bits ≡ false → bit x bits' ≡ false

  Found-eq :
      (n : ℕ) (p q : Clock) → sweep evictable n p ≡ sweep evictable n q → Found n q → Found n p
  Found-eq n p q e (found v r f may) = found v r (e ∙ f) may

  -- A referenced id gets its second chance.
  spare :
      (i : ℕ) (ring : List ℕ) (bits : List (ℕ × Bool)) (n : ℕ)
      → evictable i ≡ true
      → bit i bits ≡ true
      → Found n (clock (ring ++ (i ∷ [])) (insert i false bits))
      → Found (suc n) (clock (i ∷ ring) bits)
  unfolding sweep bit
  spare i ring bits n may' set (found v q e may) = found v q (rw (may', set) e) may

  -- A referenced or pinned id goes to the back of the ring, any other one is found.
  step :
      (i : ℕ) (ring : List ℕ) (bits : List (ℕ × Bool)) (n : ℕ)
      → ((bits' : List (ℕ × Bool)) → Keeps bits bits' → Found n (clock (ring ++ (i ∷ [])) bits'))
      → Found (suc n) (clock (i ∷ ring) bits)
  unfolding sweep bit
  step i ring bits n next = elim (Bool-cases (evictable i)) [
    | inr pinned ↦ skip pinned (next bits (λ x h. h))
    | inl may ↦ elim (Bool-cases (or_default false (lookup i bits))) [
      | inl set ↦
          spare i ring bits n may set
            (next (insert i false bits) (λ x h. rw (lookup-insert x i false bits) (cleared x h)))
      | inr clear ↦ found i (clock (ring ++ (i ∷ [])) bits) (rw (may, clear) refl) may
    ]
  ]
    where
      cleared :
          (x : ℕ)
          → or_default false (lookup x bits) ≡ false
          → or_default false (if i == x then some false else lookup x bits) ≡ false
      cleared x h = ground arith

      skip :
          evictable i ≡ false
          → Found n (clock (ring ++ (i ∷ [])) bits)
          → Found (suc n) (clock (i ∷ ring) bits)
      skip pinned (found v q e may) = found v q (rw (pinned) e) may

  pass :
      (pre rest : List ℕ) (bits : List (ℕ × Bool)) (n m : ℕ)
      → length pre + n ≡ m
      → ((bits' : List (ℕ × Bool)) → Keeps bits bits' → Found n (clock (rest ++ pre) bits'))
      → Found m (clock (pre ++ rest) bits)
  pass [] rest bits n m e next =
      let same : n ≡ m = omega arith in
      subst (λ k. Found k (clock rest bits)) same
        (subst (λ r. Found n (clock r bits)) (append-nil rest) (next bits (λ x h. h)))
  pass (i ∷ pre) rest bits n zero e next = absurd (omega arith)
  pass (i ∷ pre) rest bits n (suc m) e next = step i (pre ++ rest) bits m (λ bits1 keeps.
      subst (λ r. Found m (clock r bits1)) (sym (append_assoc pre rest (i ∷ [])))
        (pass pre (rest ++ (i ∷ [])) bits1 n m (omega arith) (λ bits2 keeps2.
          subst (λ r. Found n (clock r bits2)) (sym (append_assoc rest (i ∷ []) pre))
            (next bits2 (λ x h. keeps2 x (keeps x h))))))

  -- An evictable id in front whose reference bit is clear is found.
  front :
      (x : ℕ) (ring : List ℕ) (bits : List (ℕ × Bool)) (n : ℕ)
      → evictable x ≡ true
      → bit x bits ≡ false
      → Found (suc n) (clock (x ∷ ring) bits)
  unfolding sweep bit
  front x ring bits n may clear = found x (clock (ring ++ (x ∷ [])) bits) (rw (may, clear) refl) may

  spared-clear : (x : ℕ) (bits : List (ℕ × Bool)) → bit x (insert x false bits) ≡ false
  unfolding bit
  spared-clear x bits = rw (lookup-insert x x false bits) (ground arith)

  -- The id behind `pre` is reached, and found the second time at the latest.
  twice :
      (pre post : List ℕ) (x : ℕ) (bits : List (ℕ × Bool))
      → evictable x ≡ true
      → Found (length (pre ++ (x ∷ post)) * 2 + 1) (clock (pre ++ (x ∷ post)) bits)
  twice pre post x bits may =
      pass pre (x ∷ post) bits (suc (length pre + (length post + (length post + 2)))) _
        (omega (arith, length-append pre (x ∷ post))) (λ bits1 k1. at_x bits1)
    where
      at_x :
          (bits1 : List (ℕ × Bool))
          → Found
              (suc (length pre + (length post + (length post + 2))))
              (clock (x ∷ (post ++ pre)) bits1)
      at_x bits1 = elim (Bool-cases (bit x bits1)) [
        | inr clear ↦ front x (post ++ pre) bits1 _ may clear
        | inl set ↦ spare x (post ++ pre) bits1 _ may set (
            pass (post ++ pre) (x ∷ []) (insert x false bits1) (suc (length post + 1)) _
              (omega (arith, length-append post pre))
              (λ bits2 k2.
                front x (post ++ pre) bits2 (length post + 1) may (k2 x (spared-clear x bits1))))
      ]

  -- If any id of the ring may be evicted, wherever it stands and whatever the reference bits, the
  -- sweep of at most twice the ring and one step yields an id that may be evicted.
  pub clock_finds_victim :
      (pre post : List ℕ) (x : ℕ) (bits : List (ℕ × Bool))
      → evictable x ≡ true
      → (v : ℕ) × (q : Clock) × (evict_candidate evictable
            (record { ring = pre ++ (x ∷ post); referenced = bits })
          ≡ (some v, q))
        × (evictable v ≡ true)
  unfolding evict_candidate
  clock_finds_victim pre post x bits may = open_found (twice pre post x bits may)
    where
      open_found :
          Found (length (pre ++ (x ∷ post)) * 2 + 1) (clock (pre ++ (x ∷ post)) bits)
          → (v : ℕ) × (q : Clock) × (sweep evictable
                (length (pre ++ (x ∷ post)) * 2 + 1)
                (clock (pre ++ (x ∷ post)) bits)
              ≡ (some v, q))
            × (evictable v ≡ true)
      open_found (found v q e may') = (v, q, e, may')
