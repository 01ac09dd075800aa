-- ===== src/Filesystem/Memo/LruBacked.antt =====
-- The least recently used policy, as the cache asks for one.
use mathlib.Core.Path.{subst}
use strata_db.Prelude.{
  ℕ, ◌+◌, ◌≤◌, ◌<◌, ◌≡◌, refl, sym, ap, ◌∙◌, inl, inr, ◌⊎◌, List, [], ◌∷◌, Option, none, some,
  Option-cases, true, ◌==◌, ==_iff, if◌then◌else◌, length, Bool-cases, compare, arith,
}
use strata_db.Prelude.Order.{is_le}
use strata_db.Prelude.Maps.{lookup, erase, lookup-insert, lookup-erase}
use strata_db.Filesystem.Policies.{smaller, victim, id_of}
use strata_db.Filesystem.Policies.Lru
use strata_db.Filesystem.Policies.Lru.{Lru}
use strata_db.Filesystem.Memo.{EvictionPolicy}
use strata_db.Filesystem.Memo.Within.{Tracks, is_some}

abbrev pub lru_policy : EvictionPolicy Lru
lru_policy = record {
  record_access = Lru.record_access;
  evict_candidate = Lru.evict_candidate;
  remove = Lru.remove;
}

length-erase : (k : ℕ) (m : List (ℕ × ℕ)) → length (erase k m) ≤ length m
unfolding erase
length-erase k [] = omega arith
length-erase k ((j, w) ∷ m) = elim (Bool-cases (k == j)) [
  | inl same ↦ rw same (omega (arith, length-erase k m))
  | inr other ↦ rw other (omega (arith, length-erase k m))
]

pub length-erase_found :
    (k v : ℕ) (m : List (ℕ × ℕ)) → lookup k m ≡ some v → length (erase k m) < length m
unfolding erase lookup
length-erase_found k v [] h = cc
length-erase_found k v ((j, w) ∷ m) h = elim (Bool-cases (k == j)) [
  | inl same ↦ rw same (omega (arith, length-erase k m))
  | inr other ↦ rw other (omega (arith, length-erase_found k v m (rw (other, lookup) at h)))
]

smaller-either :
    (x : ℕ × ℕ) (o : Option (ℕ × ℕ))
    → (smaller compare x o ≡ x) ⊎ ((f : ℕ × ℕ) × (o ≡ some f) × (smaller compare x o ≡ f))
smaller-either x none = inl refl
smaller-either x (some f) = elim (Bool-cases (is_le (compare x.1 f.1))) [
  | inl first ↦ inl (ap (λ b. if b then x else f) first)
  | inr second ↦ inr (f, refl, ap (λ b. if b then x else f) second)
]

some-eq : {x y : ℕ × ℕ} → ◌≡◌ {A = Option (ℕ × ℕ)} (some x) (some y) → x ≡ y
some-eq h = cc

-- The victim among all entries is one of them, and there is one unless there are none.
pub any_victim :
    (m : List (ℕ × ℕ)) (e : ℕ × ℕ)
    → victim compare (λ id. true) m ≡ some e
    → (v : ℕ) × (lookup e.0 m ≡ some v)
unfolding victim lookup
any_victim [] e h = cc
any_victim ((j, w) ∷ m) e h = elim (Bool-cases (e.0 == j)) [
  | inl same ↦ (w, rw same refl)
  | inr other ↦ elim (smaller-either (j, w) (victim compare (λ id. true) m)) [
    | inl first ↦
        let here : (j, w) ≡ e = sym first ∙ some-eq h in
        absurd (ground (arith, (==_iff e.0 j).1 (sym (ap (λ x. x.0) here)), other))
    | inr (f, found, picked) ↦
        let there : f ≡ e = sym picked ∙ some-eq h in
        let (v, at) = any_victim m e (found ∙ ap some there) in (v, rw other at)
  ]
]

pub no_victim : (m : List (ℕ × ℕ)) → victim compare (λ id. true) m ≡ none → m ≡ []
unfolding victim
no_victim [] h = refl
no_victim ((j, w) ∷ m) h = cc

unfoldable pub lru_tracks : Tracks lru_policy
unfolding Lru.record_access Lru.evict_candidate Lru.remove id_of lookup
lru_tracks = record {
  tracks = λ j p. is_some (lookup j p.last);
  size = λ p. length p.last;
  recorded = λ j k p. ap is_some (lookup-insert j k (p.clock + 1) p.last) ∙ (ground arith);
  removed = λ j k p. ap is_some (lookup-erase j k p.last) ∙ (ground arith);
  exhausted = λ j p e. elim (Option-cases (victim compare (λ id. true) p.last)) [
    | inl none_left ↦ ap (λ m. is_some (lookup j m)) (no_victim p.last none_left)
    | inr (x, found) ↦ let differ = sym (ap id_of found) ∙ e in cc
  ];
  shrinks = λ k p e. elim (Option-cases (victim compare (λ id. true) p.last)) [
    | inl none_left ↦ let differ = sym (ap id_of none_left) ∙ e in cc
    | inr (x, found) ↦
        let same : some x.0 ≡ some k = sym (ap id_of found) ∙ e in
        let here : x.0 ≡ k = cc in
        let (v, at) = any_victim p.last x found in
        length-erase_found k v p.last (subst (λ i. lookup i p.last ≡ some v) here at)
  ];
}
