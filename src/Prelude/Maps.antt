-- ===== src/Prelude/Maps.antt =====
-- Maps as association lists: `HashMap` with the operations the code uses. The first entry of a key
-- counts; an insert replaces in place, or adds at the end.
use Prim.Native.Nat.{ℕ}
use mathlib.Core.Path.{◌≡◌, refl, ap, ◌∙◌}
use mathlib.Core.Option.{Option, none, some}
use mathlib.Core.List.{List, [], ◌∷◌}
use mathlib.Core.Logic.{inl, inr}
use native.Mathlib.Omega.{arith}
use strata_db.Prelude.Tests.{◌==◌, if◌then◌else◌, Bool-cases}
use strata_db.Prelude.Lists.{All, All-map}

module _ {ℓ} {V : Type ℓ} where
  unfoldable pub lookup : ℕ → List (ℕ × V) → Option V
  lookup k [] = none
  lookup k ((j, v) ∷ m) = if k == j then some v else lookup k m

  unfoldable pub insert : ℕ → V → List (ℕ × V) → List (ℕ × V)
  insert k v [] = (k, v) ∷ []
  insert k v ((j, w) ∷ m) = if k == j then (j, v) ∷ m else (j, w) ∷ insert k v m

  unfoldable pub erase : ℕ → List (ℕ × V) → List (ℕ × V)
  erase k [] = []
  erase k ((j, w) ∷ m) = if k == j then erase k m else (j, w) ∷ erase k m

  -- No key has two entries.
  unfoldable pub Distinct : List (ℕ × V) → Type ℓ
  Distinct [] = Unit {ℓ}
  Distinct ((j, v) ∷ m) = (lookup j m ≡ none) × Distinct m

  pub lookup-insert :
      (j k : ℕ) (v : V) (m : List (ℕ × V))
      → lookup j (insert k v m) ≡ (if k == j then some v else lookup j m)
  unfolding lookup insert
  lookup-insert j k v [] = ground arith
  lookup-insert j k v ((i, w) ∷ m) = ground (arith, lookup-insert j k v m)

  pub lookup-erase :
      (j k : ℕ) (m : List (ℕ × V)) → lookup j (erase k m) ≡ (if k == j then none else lookup j m)
  unfolding lookup erase
  lookup-erase j k [] = ground arith
  lookup-erase j k ((i, w) ∷ m) = ground (arith, lookup-erase j k m)

  pub insert-Distinct : (k : ℕ) (v : V) (m : List (ℕ × V)) → Distinct m → Distinct (insert k v m)
  unfolding Distinct insert lookup
  insert-Distinct k v [] h = (refl, tt)
  insert-Distinct k v ((j, w) ∷ m) h = elim (Bool-cases (k == j)) [
    | inl e ↦ rw (e, Distinct) h
    | inr e ↦ rw (e, Distinct) ((lookup-insert j k v m ∙ (rw e h.0)), insert-Distinct k v m h.1)
  ]

  pub erase-Distinct : (k : ℕ) (m : List (ℕ × V)) → Distinct m → Distinct (erase k m)
  unfolding Distinct erase lookup
  erase-Distinct k [] h = tt
  erase-Distinct k ((j, w) ∷ m) h = elim (Bool-cases (k == j)) [
    | inl e ↦ rw (e, Distinct) (erase-Distinct k m h.1)
    | inr e ↦ rw (e, Distinct) ((lookup-erase j k m ∙ (rw e h.0)), erase-Distinct k m h.1)
  ]

  -- What holds of all entries holds of what a lookup finds.
  pub lookup-All {κ} :
      (P : ℕ × V → Type κ) (k : ℕ) (v : V) (m : List (ℕ × V))
      → All P m
      → lookup k m ≡ some v
      → P (k, v)
  unfolding lookup
  lookup-All P k v [] h e = cc
  lookup-All P k v ((j, w) ∷ m) h e = ground (arith, lookup-All P k v m h.1)

  -- Where no key has two entries, every entry is found.
  pub Distinct-found : (m : List (ℕ × V)) → Distinct m → All (λ e. lookup e.0 m ≡ some e.1) m
  unfolding Distinct lookup
  Distinct-found [] h = tt
  Distinct-found ((j, v) ∷ m) h = (
    ground arith,
    All-map (λ e. lookup e.0 m ≡ some e.1) (λ e. lookup e.0 ((j, v) ∷ m) ≡ some e.1)
        (λ e f. behind e f) m (Distinct-found m h.1),
  )
    where
      behind : (e : ℕ × V) → lookup e.0 m ≡ some e.1 → lookup e.0 ((j, v) ∷ m) ≡ some e.1
      behind e f = ground (arith, h.0, ap (λ i. lookup i m))
