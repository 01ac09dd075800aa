-- ===== src/Lsm/Tree/Memory.antt =====
-- The memtable of the tree: what a write changes, and what a point lookup finds first.
use strata_db.Prelude.{
  ℕ, ◌≤◌, ◌<◌, ◌≡◌, refl, sym, ap, ◌∙◌, inl, inr, List, [], ◌∷◌, Option, none, some, Bool, true,
  ◌&&◌, All, All-map, Bool-cases, Option-cases, if◌then◌else◌, Ordering, arith,
}
use strata_db.Prelude.Order.{
  is_le, cmp_bytes, cmp_bytes-same, cmp_bytes-eq, cmp_bytes-IsOrder, Ordering-cases,
}
use strata_db.Lsm.Key.{KeyValue, cmp_kv, cmp_key, bytes_eq}
use strata_db.Lsm.Key.Laws.{bytes_eq_iff}
use strata_db.Lsm.Merge.Sorted.{Sorted}
use strata_db.Lsm.Resolve.Newest.{newest, later-newest}
use strata_db.Lsm.Memtable.{
  included, unbounded, keep, BTreeMemtable, insert_entry, u64_max, scan_at,
}
use strata_db.Lsm.Memtable.Insert.{Before, Ordered}
use strata_db.Lsm.Memtable.Scan.{in_bounds, scan_at-in_bounds}

pub Ordered-Sorted : (l : List KeyValue) → Ordered l → Sorted cmp_kv l
unfolding Ordered
Ordered-Sorted [] h = tt
Ordered-Sorted (kv ∷ l) h = (
  All-map (Before kv) (λ b. is_le (cmp_kv kv b) ≡ true) (λ b c. ground arith) l h.0,
  Ordered-Sorted l h.1,
)

newest-seq :
    (k : List ℕ) (n : ℕ) (l : List KeyValue) (w : KeyValue)
    → All (λ e. e.key.seq < n) l
    → newest k l ≡ some w
    → w.key.seq < n
unfolding newest
newest-seq k n [] w h e = cc
newest-seq k n (kv ∷ l) w h e = ground (arith, h.0, newest-seq k n l w h.1)

newest-front :
    (k : List ℕ) (kv : KeyValue) (l : List KeyValue)
    → All (λ e. e.key.seq < kv.key.seq) l
    → newest k (kv ∷ l) ≡ (if bytes_eq kv.key.user_key k then some kv else newest k l)
unfolding newest
newest-front k kv l h = elim (Option-cases (newest k l)) [
  | inl nothing ↦ rw nothing refl
  | inr (w, e) ↦ rw e (ground (arith, newest-seq k kv.key.seq l w h e))
]

-- A newer record further behind shows through.
newest-further :
    (k : List ℕ) (kv e : KeyValue) (l m : List KeyValue)
    → e.key.seq < kv.key.seq
    → newest k m ≡ (if bytes_eq kv.key.user_key k then some kv else newest k l)
    → newest k (e ∷ m) ≡ (if bytes_eq kv.key.user_key k then some kv else newest k (e ∷ l))
unfolding newest
newest-further k kv e l m lt ih = rw ih (elim (Bool-cases (bytes_eq kv.key.user_key k)) [
  | inl same ↦ rw same (ground arith)
  | inr other ↦ rw other refl
])

cmp_key-seq : (a b : KeyValue) → cmp_key a.key b.key ≡ Ordering.eq → a.key.seq ≡ b.key.seq
unfolding cmp_key
cmp_key-seq a b h = ground arith

-- A record newer than all others is the newest of its key wherever it goes in, and hides no other.
pub newest-insert :
    (k : List ℕ) (kv : KeyValue) (l : List KeyValue)
    → All (λ e. e.key.seq < kv.key.seq) l
    → newest k (insert_entry kv l) ≡ (if bytes_eq kv.key.user_key k then some kv else newest k l)
unfolding insert_entry
newest-insert k kv [] h = newest-front k kv [] h
newest-insert k kv (e ∷ l) h =
    Ordering-cases (cmp_key kv.key e.key) (λ c. rw (c, insert_entry) (newest-front k kv (e ∷ l) h))
      (λ c. absurd (omega (arith, cmp_key-seq kv e c, h.0)))
      (λ c.
        rw (c, insert_entry)
          (newest-further k kv e l (insert_entry kv l) h.0 (newest-insert k kv l h.1)))

pub insert-All :
    (P : KeyValue → Type 0) (kv : KeyValue) (l : List KeyValue)
    → All (λ e. e.key.seq < kv.key.seq) l
    → P kv
    → All P l
    → All P (insert_entry kv l)
unfolding insert_entry
insert-All P kv [] old p h = (p, tt)
insert-All P kv (e ∷ l) old p h =
    Ordering-cases (cmp_key kv.key e.key) (λ c. rw (c, insert_entry) (p, h))
      (λ c. absurd (omega (arith, cmp_key-seq kv e c, old.0)))
      (λ c. rw (c, insert_entry) (h.0, insert-All P kv l old.1 p h.1))

-- The first of a list of entries.
abbrev pub head_of : List KeyValue → Option KeyValue
head_of [] = none
head_of (kv ∷ l) = some kv

between_same : (k j : List ℕ) → (is_le (cmp_bytes k j) && is_le (cmp_bytes j k)) ≡ bytes_eq j k
between_same k j = elim (Bool-cases (bytes_eq j k)) [
  | inl same ↦ ground (
    arith,
    bytes_eq_iff j k,
    ap (cmp_bytes k) ((bytes_eq_iff j k).0 same),
    ap (λ t. cmp_bytes t k) ((bytes_eq_iff j k).0 same),
    cmp_bytes-same k,
  )
  | inr other ↦
      ground
        (arith, bytes_eq_iff j k, cmp_bytes-eq j k, cmp_bytes-eq k j, cmp_bytes-IsOrder.swap j k)
]

in_bounds-key :
    (k : List ℕ) (max_seq : ℕ) (kv : KeyValue)
    → kv.key.seq ≤ max_seq
    → in_bounds (included k) (included k) max_seq kv ≡ bytes_eq kv.key.user_key k
in_bounds-key k max_seq kv h = ground (arith, between_same k kv.key.user_key)

keep-head :
    (k : List ℕ) (max_seq : ℕ) (l : List KeyValue)
    → Sorted cmp_kv l
    → All (λ kv. kv.key.seq ≤ max_seq) l
    → head_of (keep (in_bounds (included k) (included k) max_seq) l) ≡ newest k l
unfolding keep newest
keep-head k max_seq [] sorted old = refl
keep-head k max_seq (kv ∷ l) sorted old =
    let test = in_bounds-key k max_seq kv old.0 in
    elim (Bool-cases (bytes_eq kv.key.user_key k)) [
      | inl same ↦ rw (test ∙ same) (
          rw same (
            ap some (sym (later-newest k kv l sorted.0 ((bytes_eq_iff kv.key.user_key k).0 same)))))
      | inr other ↦ rw (test ∙ other) (rw other (keep-head k max_seq l sorted.1 old.1))
    ]

-- The scan of a single key starts with its newest version.
pub scan_at-head :
    (k : List ℕ) (max_seq : ℕ) (m : BTreeMemtable)
    → Ordered m.store
    → All (λ kv. kv.key.seq ≤ max_seq) m.store
    → All (λ kv. kv.key.seq ≤ u64_max) m.store
    → (l : List KeyValue) × (scan_at (included k) (included k) max_seq m ≡ some l)
      × (head_of l ≡ newest k m.store)
scan_at-head k max_seq m ordered old wide =
    let l = keep (in_bounds (included k) (included k) max_seq) m.store in
    let whole : is_le (cmp_bytes k k) ≡ true = ground (arith, cmp_bytes-same k) in
    (
      l,
      scan_at-in_bounds (included k) (included k) max_seq m wide
          ∙ ap (λ b. if b then some l else none) whole,
      keep-head k max_seq m.store (Ordered-Sorted m.store ordered) old,
    )

keep-everything :
    (p : KeyValue → Bool) (l : List KeyValue) → All (λ kv. p kv ≡ true) l → keep p l ≡ l
unfolding keep
keep-everything p [] h = refl
keep-everything p (kv ∷ l) h = rw h.0 (ap (◌∷◌ kv) (keep-everything p l h.1))

-- The scan that a flush makes gives every entry.
pub scan_at-everything :
    (m : BTreeMemtable)
    → All (λ kv. kv.key.seq ≤ u64_max) m.store
    → scan_at unbounded unbounded u64_max m ≡ some m.store
scan_at-everything m wide =
    scan_at-in_bounds unbounded unbounded u64_max m wide
    ∙ ap some (
        keep-everything (in_bounds unbounded unbounded u64_max) m.store (
          All-map (λ kv. kv.key.seq ≤ u64_max)
            (λ kv. in_bounds unbounded unbounded u64_max kv ≡ true) (λ kv h. ground arith) m.store
            wide))
