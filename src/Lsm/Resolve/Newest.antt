-- ===== src/Lsm/Resolve/Newest.antt =====
-- The resolver against an independent description: for every key, the version with the highest
-- sequence number, however the records are ordered.
use mathlib.Core.Path.{subst}
use strata_db.Prelude.{
  ℕ, ◌≤◌, ◌≡◌, refl, sym, ap, ◌∙◌, inl, inr, Option-cases, All-map, List, [], ◌∷◌, Option, none,
  some, true, false, if◌then◌else◌, ltb, map, All, ok, Ordering, arith, Bool-cases,
}
use strata_db.Prelude.Order.{
  is_le, cmp_bytes, cmp_bytes-same, cmp_bytes-eq, cmp_bytes-IsOrder, lt_le_trans,
}
use strata_db.Lsm.Key.{KeyValue, cmp_kv, cmp_key, bytes_eq}
use strata_db.Lsm.Key.Laws.{bytes_eq_iff}
use strata_db.Lsm.Merge.Sorted.{Sorted}
use strata_db.Lsm.Resolve.{same_key, resolve, resolve_versions}

-- The later of two versions of one key; `a` where they are equally old.
abbrev later : KeyValue → Option KeyValue → KeyValue
later a none = a
later a (some b) = if ltb a.key.seq b.key.seq then b else a

-- The version of `k` with the highest sequence number.
unfoldable pub newest : List ℕ → List KeyValue → Option KeyValue
newest k [] = none
newest k (kv ∷ l) = if bytes_eq kv.key.user_key k then some (later kv (newest k l)) else newest k l

-- What a reader sees of a key.
unfoldable pub visible : Option KeyValue → Option (List ℕ)
unfolding resolve
visible none = none
visible (some kv) = resolve kv.key.op kv.value

-- The value that a scan's output holds for `k`.
unfoldable pub find : List ℕ → List (List ℕ × List ℕ) → Option (List ℕ)
find k [] = none
find k ((j, v) ∷ l) = if bytes_eq j k then some v else find k l

-- The resolver on a stream without errors.
unfoldable pub resolve_ok : Option (List ℕ) → List KeyValue → List (List ℕ × List ℕ)
resolve_ok last [] = []
resolve_ok last (kv ∷ rest) =
    let skipped = resolve_ok last rest in
    let others = resolve_ok (some kv.key.user_key) rest in
    if same_key last kv.key.user_key then skipped else elim (resolve kv.key.op kv.value) [
      | some v ↦ (kv.key.user_key, v) ∷ others
      | none ↦ others
    ]

pub resolve_versions-ok :
    {E : Type 0} (last : Option (List ℕ)) (l : List KeyValue)
    → resolve_versions {E = E} last (map ok l) ≡ map ok (resolve_ok last l)
unfolding resolve_versions resolve_ok
resolve_versions-ok last [] = refl
resolve_versions-ok {E} last (kv ∷ rest) = ground (
  arith,
  resolve_versions-ok {E = E} last rest,
  resolve_versions-ok {E = E} (some kv.key.user_key) rest,
)

-- The newest version has the key, and shares what holds of all records.
newest-All :
    (P : KeyValue → Type 0) (k : List ℕ) (l : List KeyValue) (w : KeyValue)
    → All P l
    → newest k l ≡ some w
    → P w × (w.key.user_key ≡ k)
unfolding newest
newest-All P k [] w all e = cc
newest-All P k (kv ∷ l) w all e =
    ground (arith, bytes_eq_iff kv.key.user_key k, newest-All P k l w all.1)

-- No key of the list comes before `p`.
abbrev pub NotBefore : Option (List ℕ) → KeyValue → Type 0
NotBefore none kv = Unit
NotBefore (some p) kv = is_le (cmp_bytes p kv.key.user_key) ≡ true

abbrev pub LeKv : KeyValue → KeyValue → Type 0
LeKv a b = is_le (cmp_kv a b) ≡ true

-- A key that all keys of the list lie beyond has no version in it.
pub newest-none :
    (k : List ℕ) (l : List KeyValue)
    → All (λ kv. cmp_bytes k kv.key.user_key ≡ Ordering.lt) l
    → newest k l ≡ none
unfolding newest
newest-none k [] h = refl
newest-none k (kv ∷ l) h =
    ground (arith, bytes_eq_iff kv.key.user_key k, newest-none k l h.1, cmp_bytes-same k)

pub LeKv-key : (a b : KeyValue) → LeKv a b → is_le (cmp_bytes a.key.user_key b.key.user_key) ≡ true
unfolding cmp_key
LeKv-key a b h = ground arith

LeKv-seq : (a b : KeyValue) → LeKv a b → a.key.user_key ≡ b.key.user_key → b.key.seq ≤ a.key.seq
unfolding cmp_key
LeKv-seq a b h e = ground (arith, cmp_bytes-same a.key.user_key, ap (cmp_bytes a.key.user_key) e)

-- A record at the front of a sorted list is the newest of its key.
pub later-newest :
    (k : List ℕ) (kv : KeyValue) (l : List KeyValue)
    → All (LeKv kv) l
    → kv.key.user_key ≡ k
    → later kv (newest k l) ≡ kv
later-newest k kv l h e = elim (Option-cases (newest k l)) [
  | inl nothing ↦ rw nothing
  | inr (w, found) ↦
      let (le, wk) = newest-All (LeKv kv) k l w h found in
      rw found (ground (arith, LeKv-seq kv w le (e ∙ sym wk)))
]

-- What the resolver emits from a fresh record on.
find-emit :
    (k : List ℕ) (kv : KeyValue) (l : List KeyValue)
    → All (LeKv kv) l
    → find k (resolve_ok (some kv.key.user_key) l)
      ≡ (if bytes_eq kv.key.user_key k then none else visible (newest k l))
    → find k (elim (resolve kv.key.op kv.value) [
      | some v ↦ (kv.key.user_key, v) ∷ resolve_ok (some kv.key.user_key) l
      | none ↦ resolve_ok (some kv.key.user_key) l
    ])
      ≡ visible (newest k (kv ∷ l))
unfolding find visible newest
find-emit k kv l h ih = elim (Bool-cases (bytes_eq kv.key.user_key k)) [
  | inl same ↦
      rw same (rw (later-newest k kv l h ((bytes_eq_iff kv.key.user_key k).0 same)) (ground arith))
  | inr other ↦ rw other (ground arith)
]

-- A key that the list lies beyond is not visible in it.
visible-none :
    (p : List ℕ) (kv : KeyValue) (l : List KeyValue)
    → All (LeKv kv) l
    → is_le (cmp_bytes p kv.key.user_key) ≡ true
    → bytes_eq p kv.key.user_key ≡ false
    → visible (newest p (kv ∷ l)) ≡ none
unfolding visible
visible-none p kv l h le ne =
    rw (newest-none p (kv ∷ l) (before, All-map (LeKv kv) Beyond step l h))
  where
    Beyond : KeyValue → Type 0
    Beyond b = cmp_bytes p b.key.user_key ≡ Ordering.lt

    before : cmp_bytes p kv.key.user_key ≡ Ordering.lt
    before = ground (arith, cmp_bytes-eq p kv.key.user_key, bytes_eq_iff p kv.key.user_key)

    step : (b : KeyValue) → LeKv kv b → cmp_bytes p b.key.user_key ≡ Ordering.lt
    step b k =
        lt_le_trans cmp_bytes cmp_bytes-IsOrder p kv.key.user_key b.key.user_key before
          (LeKv-key kv b k)

skip-same :
    (k p : List ℕ) (kv : KeyValue) (l : List KeyValue)
    → bytes_eq p kv.key.user_key ≡ true
    → (if bytes_eq p k then none else visible (newest k l))
      ≡ (if bytes_eq p k then none else visible (newest k (kv ∷ l)))
unfolding newest
skip-same k p kv l same =
    ground (arith, bytes_eq_iff p kv.key.user_key, bytes_eq_iff p k, bytes_eq_iff kv.key.user_key k)

hide-seen :
    (k p : List ℕ) (kv : KeyValue) (l : List KeyValue)
    → (k ≡ p → visible (newest k (kv ∷ l)) ≡ none)
    → visible (newest k (kv ∷ l)) ≡ (if bytes_eq p k then none else visible (newest k (kv ∷ l)))
hide-seen k p kv l gone = elim (Bool-cases (bytes_eq p k)) [
  | inl seen ↦ rw seen (gone (sym ((bytes_eq_iff p k).0 seen)))
  | inr other ↦ rw other
]

pub find-resolve_ok :
    (k : List ℕ) (last : Option (List ℕ)) (l : List KeyValue)
    → Sorted cmp_kv l
    → All (NotBefore last) l
    → find k (resolve_ok last l) ≡ (if same_key last k then none else visible (newest k l))
unfolding resolve_ok same_key
find-resolve_ok k last [] sorted after = unfold find visible newest in ground arith
find-resolve_ok k none (kv ∷ l) sorted after = find-emit k kv l sorted.0 (
    find-resolve_ok k (some kv.key.user_key) l sorted.1
      (All-map (LeKv kv) (NotBefore (some kv.key.user_key)) (LeKv-key kv) l sorted.0))
find-resolve_ok k (some p) (kv ∷ l) sorted after = elim (Bool-cases (bytes_eq p kv.key.user_key)) [
  | inl same ↦ rw same (find-resolve_ok k (some p) l sorted.1 after.1 ∙ skip-same k p kv l same)
  | inr fresh ↦ rw fresh (
      find-emit k kv l sorted.0 (
        find-resolve_ok k (some kv.key.user_key) l sorted.1
          (All-map (LeKv kv) (NotBefore (some kv.key.user_key)) (LeKv-key kv) l sorted.0))
      ∙ hide-seen k p kv l (λ e.
        subst (λ j. visible (newest j (kv ∷ l)) ≡ none) (sym e)
          (visible-none p kv l sorted.0 after.0 fresh)))
]
