-- ===== src/Filesystem/Memo/Within.antt =====
-- The cache answers as its loader does, and keeps to its budget.
use mathlib.Core.Path.{subst}
use strata_db.Prelude.{
  ℕ, zero, suc, ◌+◌, ◌-◌, ◌≤◌, ◌<◌, ◌≡◌, refl, sym, ap, ◌∙◌, inl, inr, ◌⊎◌, List, [], ◌∷◌, Option,
  none, some, Option-cases, Bool, true, false, not, ◌&&◌, ◌||◌, ◌==◌, ==_iff, if◌then◌else◌, length,
  ltb-eq_false, Bool-cases, ok, arith,
}
use strata_db.Prelude.Maps.{
  lookup, insert, erase, Distinct, lookup-insert, lookup-erase, insert-Distinct, erase-Distinct,
}
use strata_db.Filesystem.Memo.{
  EvictionPolicy, Budget, Cache, over, over_budget, evict_key, evict_to_budget, store, get_or_load,
  new,
}

-- What a cache asks of its policy: which keys it tracks, and that it gives one of them up if any.
pub record Tracks {P : Type 0} (pol : EvictionPolicy P) : Type 0 where
  pub tracks : ℕ → P → Bool
  pub size : P → ℕ
  pub recorded : (j k : ℕ) (p : P) → tracks j (pol.record_access k p) ≡ (k == j || tracks j p)
  pub removed : (j k : ℕ) (p : P) → tracks j (pol.remove k p) ≡ (not (k == j) && tracks j p)
  pub exhausted : (j : ℕ) (p : P) → pol.evict_candidate (λ id. true) p ≡ none → tracks j p ≡ false
  pub shrinks :
      (k : ℕ) (p : P) → pol.evict_candidate (λ id. true) p ≡ some k → size (pol.remove k p) < size p

abbrev pub is_some {ℓ} : {A : Type ℓ} → Option A → Bool
is_some none = false
is_some (some a) = true

module _ {V P : Type 0} (pol : EvictionPolicy P) (weight : V → ℕ) where
  unfoldable pub total : List (ℕ × V) → ℕ
  total [] = 0
  total ((j, v) ∷ m) = weight v + total m

  total-insert :
      (k : ℕ) (v : V) (m : List (ℕ × V))
      → lookup k m ≡ none
      → total (insert k v m) ≡ total m + weight v
  unfolding total lookup insert
  total-insert k v [] h = omega arith
  total-insert k v ((j, w) ∷ m) h = elim (Bool-cases (k == j)) [
    | inl same ↦ let found = (rw (same, lookup) at h) in cc
    | inr other ↦ rw other (omega (arith, total-insert k v m (rw (other, lookup) at h)))
  ]

  erase-absent : (k : ℕ) (m : List (ℕ × V)) → lookup k m ≡ none → total (erase k m) ≡ total m
  unfolding total lookup erase
  erase-absent k [] h = refl
  erase-absent k ((j, w) ∷ m) h = elim (Bool-cases (k == j)) [
    | inl same ↦ let found = (rw (same, lookup) at h) in cc
    | inr other ↦ rw other (ap (λ n. weight w + n) (erase-absent k m (rw (other, lookup) at h)))
  ]

  total-erase :
      (k : ℕ) (v : V) (m : List (ℕ × V))
      → Distinct m
      → lookup k m ≡ some v
      → total (erase k m) + weight v ≡ total m
  unfolding total lookup erase Distinct
  total-erase k v [] d h = cc
  total-erase k v ((j, w) ∷ m) d h = elim (Bool-cases (k == j)) [
    | inl same ↦
        let first : some w ≡ some v = (rw (same, lookup) at h) in
        let here : w ≡ v = cc in
        let gone =
          erase-absent k m (subst (λ i. lookup i m ≡ none) (sym ((==_iff k j).0 same)) d.0) in
        rw same (omega (arith, gone, ap weight here))
    | inr other ↦ rw other (omega (arith, total-erase k v m d.1 (rw (other, lookup) at h)))
  ]

  found-erase :
      (j key : ℕ) (v : V) (m : List (ℕ × V))
      → lookup j (erase key m) ≡ some v
      → ((key == j) ≡ false) × (lookup j m ≡ some v)
  found-erase j key v m h = ground (arith, lookup-erase j key m, h)

  found-insert :
      (j key : ℕ) (v w : V) (m : List (ℕ × V))
      → lookup j (insert key w m) ≡ some v
      → ((key ≡ j) × (v ≡ w)) ⊎ (((key == j) ≡ false) × (lookup j m ≡ some v))
  found-insert j key v w m h = elim (Bool-cases (key == j)) [
    | inl same ↦
        let here : lookup j (insert key w m) ≡ some w =
          lookup-insert j key w m ∙ ap (λ b. if b then some w else lookup j m) same in
        inl ((==_iff key j).0 same, cc)
    | inr other ↦
        let there : lookup j (insert key w m) ≡ lookup j m =
          lookup-insert j key w m ∙ ap (λ b. if b then some w else lookup j m) other in
        inr (other, sym there ∙ h)
  ]

  module _ (laws : Tracks pol) where
    -- The counter is the sum of the weights, the policy tracks every key, and each entry is what
    -- `f` gives for its key.
    pub record Kept (f : ℕ → V) (c : Cache V P) : Type 0 where
      pub distinct : Distinct c.entries
      pub counted : c.bytes ≡ total c.entries
      pub tracked : (j : ℕ) (v : V) → lookup j c.entries ≡ some v → laws.tracks j c.policy ≡ true
      pub same : (j : ℕ) (v : V) → lookup j c.entries ≡ some v → v ≡ f j

    all_absent : (m : List (ℕ × V)) → ((j : ℕ) → lookup j m ≡ none) → m ≡ []
    unfolding lookup
    all_absent [] h = refl
    all_absent ((j, v) ∷ m) h =
        let first = h j in absurd (ground (arith, first, (==_iff j j).1 refl))

    -- With nothing left to give up, the cache is empty.
    exhausted-over :
        (f : ℕ → V) (c : Cache V P)
        → Kept f c
        → pol.evict_candidate (λ id. true) c.policy ≡ none
        → over_budget pol weight c ≡ false
    unfolding over_budget
    exhausted-over f c kept e =
        let empty = all_absent c.entries (λ j. elim (Option-cases (lookup j c.entries)) [
          | inl absent ↦ absent
          | inr (v, found) ↦
              let a = kept.tracked j v found in let b = laws.exhausted j c.policy e in cc
        ]) in
        let none_left : c.bytes ≡ 0 = kept.counted ∙ ap total empty ∙ (unfold total in refl) in
        ap (λ m. over pol weight c.budget (length m) c.bytes) empty
        ∙ ap (over pol weight c.budget 0) none_left
        ∙ never c.budget
      where
        never : (b : Budget) → over pol weight b 0 0 ≡ false
        never Budget.unlimited = unfold over in refl
        never (Budget.entries n) = unfold over in ltb-eq_false n 0 (omega arith)
        never (Budget.bytes n) = unfold over in ltb-eq_false n 0 (omega arith)

    Kept-absent :
        (f : ℕ → V) (key : ℕ) (c : Cache V P)
        → Kept f c
        → lookup key c.entries ≡ none
        → Kept f (record c { policy = pol.remove key c.policy })
    Kept-absent f key c kept absent = record {
      distinct = kept.distinct;
      counted = kept.counted;
      tracked = λ j v found. laws.removed j key c.policy ∙ (elim (Bool-cases (key == j)) [
        | inl same ↦
            let here = ap (λ i. lookup i c.entries) ((==_iff key j).0 same) in
            absurd (ground (arith, here, absent, found))
        | inr other ↦ rw other (kept.tracked j v found)
      ]);
      same = kept.same;
    }

    Kept-erased :
        (f : ℕ → V) (key : ℕ) (w : V) (c : Cache V P)
        → Kept f c
        → lookup key c.entries ≡ some w
        → Kept f (record c {
          entries = erase key c.entries;
          bytes = c.bytes - weight w;
          policy = pol.remove key c.policy;
        })
    Kept-erased f key w c kept found = record {
      distinct = erase-Distinct key c.entries kept.distinct;
      counted = omega (arith, kept.counted, total-erase key w c.entries kept.distinct found);
      tracked = λ j v there.
          let (other, before) = found-erase j key v c.entries there in
          laws.removed j key c.policy
          ∙ ap (λ b. not b && laws.tracks j c.policy) other
          ∙ kept.tracked j v before;
      same = λ j v there. kept.same j v (found-erase j key v c.entries there).1;
    }

    evict_key-Kept :
        (f : ℕ → V) (key : ℕ) (c : Cache V P) → Kept f c → Kept f (evict_key pol weight key c)
    unfolding evict_key
    evict_key-Kept f key c kept = elim (Option-cases (lookup key c.entries)) [
      | inl absent ↦ rw (absent, evict_key) (Kept-absent f key c kept absent)
      | inr (w, found) ↦ rw (found, evict_key) (Kept-erased f key w c kept found)
    ]

    evict_key-policy :
        (key : ℕ) (c : Cache V P) → (evict_key pol weight key c).policy ≡ pol.remove key c.policy
    unfolding evict_key
    evict_key-policy key c = elim (Option-cases (lookup key c.entries)) [
      | inl absent ↦ rw (absent, evict_key) refl
      | inr (w, found) ↦ rw (found, evict_key) refl
    ]

    evict_to_budget-Kept :
        (f : ℕ → V) (fuel : ℕ) (c : Cache V P)
        → Kept f c
        → laws.size c.policy ≤ fuel
        → Kept f (evict_to_budget pol weight fuel c)
          × (over_budget pol weight (evict_to_budget pol weight fuel c) ≡ false)
    unfolding evict_to_budget
    evict_to_budget-Kept f zero c kept enough = (
      kept,
      elim (Option-cases (pol.evict_candidate (λ id. true) c.policy)) [
        | inl e ↦ exhausted-over f c kept e
        | inr (key, e) ↦ absurd (omega (arith, laws.shrinks key c.policy e))
      ],
    )
    evict_to_budget-Kept f (suc fuel) c kept enough = elim (Bool-cases (over_budget pol weight c)) [
      | inr within ↦ rw (within, evict_to_budget) (kept, within)
      | inl over ↦ elim (Option-cases (pol.evict_candidate (λ id. true) c.policy)) [
        | inl e ↦ rw (over, e, evict_to_budget) (kept, exhausted-over f c kept e)
        | inr (key, e) ↦
            let smaller =
              subst (λ p. laws.size p < laws.size c.policy) (sym (evict_key-policy key c))
                (laws.shrinks key c.policy e) in
            rw (over, e, evict_to_budget)
              (evict_to_budget-Kept f fuel (evict_key pol weight key c)
                (evict_key-Kept f key c kept) (omega (arith, smaller, enough)))
      ]
    ]

    -- A key that is accessed again stays tracked.
    Kept-hit :
        (f : ℕ → V) (key : ℕ) (c : Cache V P)
        → Kept f c
        → Kept f (record c { policy = pol.record_access key c.policy })
    Kept-hit f key c kept = record {
      distinct = kept.distinct;
      counted = kept.counted;
      tracked =
          λ j v found. laws.recorded j key c.policy ∙ (ground (arith, kept.tracked j v found));
      same = kept.same;
    }

    Kept-store :
        (f : ℕ → V) (key : ℕ) (c : Cache V P)
        → Kept f c
        → lookup key c.entries ≡ none
        → Kept f (store pol weight key (f key) c)
    unfolding store
    Kept-store f key c kept absent = record {
      distinct = insert-Distinct key (f key) c.entries kept.distinct;
      counted = omega (arith, kept.counted, total-insert key (f key) c.entries absent);
      tracked = λ j v found.
          laws.recorded j key c.policy ∙ (elim (found-insert j key v (f key) c.entries found) [
            | inl (same, e) ↦ ap (λ b. b || laws.tracks j c.policy) ((==_iff key j).1 same)
            | inr (other, before) ↦
                ap (λ b. b || laws.tracks j c.policy) other ∙ kept.tracked j v before
          ]);
      same = λ j v found. elim (found-insert j key v (f key) c.entries found) [
        | inl (same, e) ↦ e ∙ ap f same
        | inr (other, before) ↦ kept.same j v before
      ];
    }

    -- On a cache that counts its bytes, tracks its keys and holds the loader's values, and with
    -- rounds enough for what the policy tracks, a fetch answers with the loader's value, hit or
    -- miss, keeps all that, and leaves the cache within its budget, for any policy that gives up a
    -- tracked key while there is one.
    pub get_or_load-Kept :
        {E : Type 0} (f : ℕ → V) (fuel key : ℕ) (c : Cache V P)
        → Kept f c
        → over_budget pol weight c ≡ false
        → laws.size (pol.record_access key c.policy) ≤ fuel
        → let r = get_or_load pol weight {E = E} fuel key (ok (f key)) c in
          (r.0 ≡ ok (f key)) × Kept f r.1 × (over_budget pol weight r.1 ≡ false)
    unfolding get_or_load over_budget store
    get_or_load-Kept f fuel key c kept within enough = elim (Option-cases (lookup key c.entries)) [
      | inl absent ↦
          let (after, fits) =
            evict_to_budget-Kept f fuel (store pol weight key (f key) c)
              (Kept-store f key c kept absent) enough in
          rw (absent, get_or_load) (refl, after, fits)
      | inr (v, found) ↦
          rw (found, get_or_load) (ap ok (kept.same key v found), Kept-hit f key c kept, within)
    ]

    pub new-Kept : (f : ℕ → V) (budget : Budget) (p : P) → Kept f (new pol weight budget p)
    unfolding new Distinct total lookup
    new-Kept f budget p = record {
      distinct = tt;
      counted = refl;
      tracked = λ j v found. cc;
      same = λ j v found. cc;
    }
