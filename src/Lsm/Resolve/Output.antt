-- ===== src/Lsm/Resolve/Output.antt =====
-- The resolver's whole output: keys strictly ascend, and each key shows its newest version.
use strata_db.Prelude.{
  ℕ, ◌≡◌, inl, inr, List, [], ◌∷◌, Option, none, some, false, map, All, All-map, ok, Ordering,
  arith, Bool-cases,
}
use strata_db.Prelude.Order.{cmp_bytes, cmp_bytes-eq, cmp_bytes-IsOrder}
use strata_db.Lsm.Key.{KeyValue, cmp_kv}
use strata_db.Lsm.Key.Laws.{bytes_eq_iff}
use strata_db.Lsm.Merge.Sorted.{Sorted}
use strata_db.Lsm.Resolve.{same_key, resolve, resolve_versions}
use strata_db.Lsm.Resolve.Newest.{
  newest, visible, find, resolve_ok, resolve_versions-ok, NotBefore, LeKv, LeKv-key,
  find-resolve_ok,
}

-- Keys strictly ascend, so that each key stands in the output once.
abbrev pub Ascending : List (List ℕ × List ℕ) → Type 0
Ascending [] = Unit
Ascending ((j, v) ∷ l) = All (λ q. cmp_bytes j q.0 ≡ Ordering.lt) l × Ascending l

abbrev After : Option (List ℕ) → List ℕ × List ℕ → Type 0
After none q = Unit
After (some p) q = cmp_bytes p q.0 ≡ Ordering.lt

After-step :
    (last : Option (List ℕ)) (kv : KeyValue)
    → NotBefore last kv
    → same_key last kv.key.user_key ≡ false
    → (v : List ℕ) → After last (kv.key.user_key, v)
unfolding same_key
After-step none kv le ne v = tt
After-step (some p) kv le ne v =
    ground (arith, cmp_bytes-eq p kv.key.user_key, bytes_eq_iff p kv.key.user_key)

After-trans :
    (last : Option (List ℕ)) (j : List ℕ) (v : List ℕ) (q : List ℕ × List ℕ)
    → After last (j, v)
    → After (some j) q
    → After last q
After-trans none j v q h k = tt
After-trans (some p) j v q h k = cmp_bytes-IsOrder.trans p j q.0 h k

emit-Ascending :
    (last : Option (List ℕ)) (j : List ℕ) (o : Option (List ℕ)) (l : List (List ℕ × List ℕ))
    → ((v : List ℕ) → After last (j, v))
    → All (After (some j)) l
    → Ascending l
    → All (After last) (elim o [ some v ↦ (j, v) ∷ l | none ↦ l ])
      × Ascending (elim o [ some v ↦ (j, v) ∷ l | none ↦ l ])
emit-Ascending last j none l h all asc =
    (All-map (After (some j)) (After last) (λ q. After-trans last j [] q (h [])) l all, asc)
emit-Ascending last j (some v) l h all asc = (
  (h v, All-map (After (some j)) (After last) (λ q. After-trans last j v q (h v)) l all),
  (all, asc),
)

resolve_ok-Ascending :
    (last : Option (List ℕ)) (l : List KeyValue)
    → Sorted cmp_kv l
    → All (NotBefore last) l
    → All (After last) (resolve_ok last l) × Ascending (resolve_ok last l)
unfolding resolve_ok
resolve_ok-Ascending last [] sorted after = (tt, tt)
resolve_ok-Ascending last (kv ∷ l) sorted after =
    elim (Bool-cases (same_key last kv.key.user_key)) [
      | inl same ↦ rw same (resolve_ok-Ascending last l sorted.1 after.1)
      | inr fresh ↦
          let (all, asc) =
            resolve_ok-Ascending (some kv.key.user_key) l sorted.1
              (All-map (LeKv kv) (NotBefore (some kv.key.user_key)) (LeKv-key kv) l sorted.0) in
          rw fresh (
            emit-Ascending last kv.key.user_key (resolve kv.key.op kv.value) _
              (After-step last kv after.0 fresh) all asc)
    ]

NotBefore-none : (l : List KeyValue) → All (NotBefore none) l
NotBefore-none [] = tt
NotBefore-none (kv ∷ l) = (tt, NotBefore-none l)

-- On ascending records without read errors the resolver yields pairs whose keys strictly ascend,
-- and for every key the value of its version with the highest sequence number: none if that is a
-- tombstone, or if there is no version.
pub resolver_shows_newest :
    {E : Type 0} (l : List KeyValue)
    → Sorted cmp_kv l
    → (out : List (List ℕ × List ℕ)) × (resolve_versions {E = E} none (map ok l) ≡ map ok out)
      × Ascending out
      × ((k : List ℕ) → find k out ≡ visible (newest k l))
unfolding same_key
resolver_shows_newest l sorted = (
  resolve_ok none l,
  resolve_versions-ok none l,
  (resolve_ok-Ascending none l sorted (NotBefore-none l)).1,
  λ k. find-resolve_ok k none l sorted (NotBefore-none l),
)
