-- ===== src/Filesystem/Policies/Victim.antt =====
-- What `min_by_key` over the evictable entries picks.
use mathlib.Core.Path.{subst}
use strata_db.Prelude.{
  ℕ, ◌≡◌, refl, sym, ◌∙◌, inl, inr, List, [], ◌∷◌, Option, none, some, Bool, true, false,
  Bool-cases, Option-cases, All, All-map, Ordering, arith,
}
use strata_db.Prelude.Order.{IsOrder, is_le, le_trans}
use strata_db.Prelude.Maps.{lookup, Distinct, Distinct-found, lookup-All}
use strata_db.Filesystem.Policies.{smaller, victim, id_of}

module _ {V : Type 0} (cmp : V → V → Ordering) (o : IsOrder cmp) (evictable : ℕ → Bool) where
  -- `i` may be evicted, and no id that may has a smaller score.
  unfoldable pub Picks : (ℕ → Option V) → Option ℕ → Type 0
  Picks find none = (j : ℕ) → evictable j ≡ true → find j ≡ none
  Picks find (some i) =
      (evictable i ≡ true)
      × ((v : V) × (find i ≡ some v)
          × ((j : ℕ) (w : V) → evictable j ≡ true → find j ≡ some w → is_le (cmp v w) ≡ true))

  AtMost : V → ℕ × V → Type 0
  AtMost v e = evictable e.0 ≡ true → is_le (cmp v e.1) ≡ true

  -- An entry with `P` that is at most as large as every evictable entry, if there is one.
  Least : (ℕ × V → Type 0) → List (ℕ × V) → Option (ℕ × V) → Type 0
  Least P m none = All (λ e. evictable e.0 ≡ false) m
  Least P m (some x) = P x × ((evictable x.0 ≡ true) × All (AtMost x.1) m)

  self : (v : V) → is_le (cmp v v) ≡ true
  self v = rw (o.same v)

  closer :
      (P : ℕ × V → Type 0) (e : ℕ × V) (m : List (ℕ × V)) (found : Option (ℕ × V))
      → P e
      → evictable e.0 ≡ true
      → Least P m found
      → Least P (e ∷ m) (some (smaller cmp e found))
  unfolding Least AtMost
  closer P e m none h may least = (
    h,
    (
      may,
      (
        (λ k. self e.1),
        All-map (λ f. evictable f.0 ≡ false) (AtMost e.1) (λ f never may'. cc) m least,
      ),
    ),
  )
  closer P e m (some f) h may least = elim (Bool-cases (is_le (cmp e.1 f.1))) [
    | inl le ↦
        subst (λ r. Least P (e ∷ m) (some r)) (sym (pick le))
          (
            h,
            (
              may,
              (
                (λ k. self e.1),
                All-map (AtMost f.1) (AtMost e.1)
                    (λ g below k. le_trans cmp o e.1 f.1 g.1 le (below k)) m least.1.1,
              ),
            ),
          )
    | inr gt ↦
        subst (λ r. Least P (e ∷ m) (some r)) (sym (keep gt))
          (least.0, (least.1.0, ((λ k. ground (arith, o.swap e.1 f.1)), least.1.1)))
  ]
    where
      pick : is_le (cmp e.1 f.1) ≡ true → smaller cmp e (some f) ≡ e
      pick le = rw le refl

      keep : is_le (cmp e.1 f.1) ≡ false → smaller cmp e (some f) ≡ f
      keep gt = rw gt refl

  victim-Least :
      (P : ℕ × V → Type 0) (m : List (ℕ × V)) → All P m → Least P m (victim cmp evictable m)
  unfolding victim Least AtMost
  victim-Least P [] h = tt
  victim-Least P (e ∷ m) h = elim (Bool-cases (evictable e.0)) [
    | inl may ↦
        rw (may, Least, victim)
          (closer P e m (victim cmp evictable m) h.0 may (victim-Least P m h.1))
    | inr never ↦
        rw (never, Least, victim) (skip (victim cmp evictable m) never (victim-Least P m h.1))
  ]
    where
      skip :
          (found : Option (ℕ × V)) → evictable e.0 ≡ false → Least P m found → Least P (e ∷ m) found
      skip none never least = (never, least)
      skip (some f) never least = (least.0, (least.1.0, ((λ k. cc), least.1.1)))

  -- Read by lookups, whatever describes them.
  pub victim-Picks :
      (m : List (ℕ × V)) (find : ℕ → Option V)
      → Distinct m
      → ((j : ℕ) → lookup j m ≡ find j)
      → Picks find (id_of (victim cmp evictable m))
  unfolding Picks Least id_of AtMost
  victim-Picks m find d same =
      go (victim cmp evictable m)
        (victim-Least (λ e. lookup e.0 m ≡ some e.1) m (Distinct-found m d))
    where
      go :
          (found : Option (ℕ × V))
          → Least (λ e. lookup e.0 m ≡ some e.1) m found
          → Picks find (id_of found)
      go none least = λ j may. elim (Option-cases (lookup j m)) [
        | inl nothing ↦ sym (same j) ∙ nothing
        | inr (w, e) ↦ let never = lookup-All (λ f. evictable f.0 ≡ false) j w m least e in cc
      ]
      go (some x) least = (
        least.1.0,
        (
          x.1,
          sym (same x.0) ∙ least.0,
          λ j w may e. lookup-All (AtMost x.1) j w m least.1.1 (same j ∙ e) may,
        ),
      )
