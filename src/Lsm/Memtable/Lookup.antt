-- ===== src/Lsm/Memtable/Lookup.antt =====
-- `get_at` against the resolver's description of what a reader sees of a key.
use strata_db.Prelude.{
  ℕ, ◌≡◌, refl, sym, ap, inl, inr, List, [], ◌∷◌, none, some, Bool, true, false, leb, if◌then◌else◌,
  Bool-cases, All, All-map, Ordering, arith,
}
use strata_db.Prelude.Order.{
  cmp_bytes, cmp_bytes-same, cmp_bytes-eq, cmp_bytes-IsOrder, Ordering-cases, lt_le_trans,
}
use strata_db.Lsm.Key.{put, delete, KeyValue, cmp_key, bytes_eq}
use strata_db.Lsm.Key.Laws.{bytes_eq_iff}
use strata_db.Lsm.Resolve.{resolve}
use strata_db.Lsm.Resolve.Newest.{LeKv, LeKv-key, newest, visible, newest-none, later-newest}
use strata_db.Lsm.Memtable.{keep, BTreeMemtable, get_at, first_from}
use strata_db.Lsm.Memtable.Insert.{Before, Ordered}

-- The versions that a reader at `max_seq` may see.
abbrev pub up_to : ℕ → KeyValue → Bool
up_to max_seq kv = leb kv.key.seq max_seq

pub keep-All :
    (P : KeyValue → Type 0) (p : KeyValue → Bool) (l : List KeyValue) → All P l → All P (keep p l)
unfolding keep
keep-All P p [] h = tt
keep-All P p (kv ∷ l) h = elim (Bool-cases (p kv)) [
  | inl kept ↦ rw kept (h.0, keep-All P p l h.1)
  | inr dropped ↦ rw dropped (keep-All P p l h.1)
]

Before-LeKv : (a b : KeyValue) → Before a b → LeKv a b
Before-LeKv a b h = ground arith

-- A version that a reader may see, of the key looked for, ends the search.
found :
    (k : List ℕ) (s : ℕ) (kv : KeyValue) (l : List KeyValue)
    → All (Before kv) l
    → kv.key.user_key ≡ k
    → up_to s kv ≡ true
    → newest k (keep (up_to s) (kv ∷ l)) ≡ some kv
unfolding keep newest
found k s kv l h e u = rw u (
    rw ((bytes_eq_iff kv.key.user_key k).1 e) (
      rw (
        later-newest k kv (keep (up_to s) l)
          (keep-All (LeKv kv) (up_to s) l (All-map (Before kv) (LeKv kv) (Before-LeKv kv) l h)) e)))

-- A record that is not a visible version of the key changes nothing.
passed :
    (k : List ℕ) (s : ℕ) (kv : KeyValue) (l : List KeyValue)
    → (kv.key.user_key ≡ k → up_to s kv ≡ false)
    → newest k (keep (up_to s) (kv ∷ l)) ≡ newest k (keep (up_to s) l)
unfolding keep newest
passed k s kv l h = ground (arith, bytes_eq_iff kv.key.user_key k)

beyond :
    (k : List ℕ) (s : ℕ) (kv : KeyValue) (l : List KeyValue)
    → All (Before kv) l
    → cmp_bytes k kv.key.user_key ≡ Ordering.lt
    → newest k (keep (up_to s) (kv ∷ l)) ≡ none
beyond k s kv l h c =
    newest-none k (keep (up_to s) (kv ∷ l))
      (keep-All Far (up_to s) (kv ∷ l) (c, All-map (Before kv) Far step l h))
  where
    Far : KeyValue → Type 0
    Far b = cmp_bytes k b.key.user_key ≡ Ordering.lt

    step : (b : KeyValue) → Before kv b → Far b
    step b lt =
        lt_le_trans cmp_bytes cmp_bytes-IsOrder k kv.key.user_key b.key.user_key c
          (LeKv-key kv b (Before-LeKv kv b lt))

-- On entries in strict key order, reading a key at `max_seq` gives the value of its version with
-- the highest sequence number up to `max_seq`, and nothing where that is a tombstone or missing.
pub get_at-newest :
    (k : List ℕ) (max_seq : ℕ) (m : BTreeMemtable)
    → Ordered m.store
    → get_at k max_seq m ≡ visible (newest k (keep (up_to max_seq) m.store))
unfolding get_at first_from Ordered cmp_key
get_at-newest k s m h = search m.store h
  where
    search :
        (l : List KeyValue)
        → Ordered l
        → (elim (first_from (record { user_key = k; seq = s; op = put }) l) [
          | none ↦ none
          | some kv ↦
              if bytes_eq kv.key.user_key k
              then (elim kv.key.op [ put ↦ some kv.value | delete ↦ none ])
              else none
        ])
          ≡ visible (newest k (keep (up_to s) l))
    search [] o = unfold keep newest visible in refl
    search (kv ∷ l) o =
        Ordering-cases (cmp_bytes k kv.key.user_key)
          (λ c.
            rw (beyond k s kv l o.0 c)
              (unfold visible in ground (arith, bytes_eq_iff kv.key.user_key k, cmp_bytes-same k)))
          (λ c. elim (Bool-cases (up_to s kv)) [
            | inl u ↦
                rw (c, u, found k s kv l o.0 (sym (cmp_bytes-eq k kv.key.user_key c)) u)
                  (unfold visible resolve in
                    ground (arith, bytes_eq_iff kv.key.user_key k, cmp_bytes-eq k kv.key.user_key))
            | inr n ↦ rw (c, n, passed k s kv l (λ e. n)) (search l o.1)
          ])
          (λ c. rw c (
            rw (passed k s kv l (λ e. ground (arith, ap (cmp_bytes k) e, cmp_bytes-same k)))
              (search l o.1)))
