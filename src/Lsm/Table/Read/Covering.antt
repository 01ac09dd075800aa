-- ===== src/Lsm/Table/Read/Covering.antt =====
-- The block that covers a key holds the newest version of it, if the table has one.
use strata_db.Prelude.{
  ℕ, ◌≤◌, ◌≡◌, refl, sym, ap, ◌∙◌, inl, inr, List, [], ◌∷◌, ◌++◌, Option, none, some, Option-cases,
  true, false, ◌&&◌, All, All-map, All-append_parts, Bool-cases, Ordering, arith,
}
use strata_db.Prelude.Order.{
  is_le, cmp_bytes, cmp_bytes-same, cmp_bytes-eq, cmp_bytes-IsOrder, le_trans, lt_le_trans,
}
use strata_db.Lsm.Key.{KeyValue, cmp_kv, bytes_eq}
use strata_db.Lsm.Key.Laws.{bytes_eq_iff}
use strata_db.Lsm.Merge.Sorted.{Sorted}
use strata_db.Lsm.Resolve.Newest.{newest, newest-none, later-newest, LeKv, LeKv-key}
use strata_db.Lsm.Table.Build.{last_key}
use strata_db.Lsm.Table.Read.{first_version}

-- The newer layer in front.
abbrev pub or_else : Option KeyValue → Option KeyValue → Option KeyValue
or_else none older = older
or_else (some kv) older = some kv

pub Sorted-append_parts :
    (g r : List KeyValue) → Sorted cmp_kv (g ++ r) → Sorted cmp_kv g × Sorted cmp_kv r
Sorted-append_parts [] r h = (tt, h)
Sorted-append_parts (kv ∷ g) r h =
    let (left, right) = Sorted-append_parts g r h.1 in
    (((All-append_parts (LeKv kv) g r h.0).0, left), right)

pub newest-append :
    (k : List ℕ) (g r : List KeyValue)
    → Sorted cmp_kv (g ++ r)
    → newest k (g ++ r) ≡ or_else (newest k g) (newest k r)
unfolding newest
newest-append k [] r h = refl
newest-append k (kv ∷ g) r h = elim (Bool-cases (bytes_eq kv.key.user_key k)) [
  | inl same ↦
      let e = (bytes_eq_iff kv.key.user_key k).0 same in
      rw same (
        ap some (
          later-newest k kv (g ++ r) h.0 e
          ∙ sym (later-newest k kv g (All-append_parts (LeKv kv) g r h.0).0 e)))
  | inr other ↦ rw other (newest-append k g r h.1)
]

-- In a sorted list whose versions are all old enough, the first of a key is its newest.
pub first_version-newest :
    (key : List ℕ) (max_seq : ℕ) (l : List KeyValue)
    → Sorted cmp_kv l
    → All (λ kv. kv.key.seq ≤ max_seq) l
    → first_version key max_seq l ≡ newest key l
unfolding first_version newest
first_version-newest key max_seq [] sorted old = refl
first_version-newest key max_seq (kv ∷ l) sorted old =
    let ih = first_version-newest key max_seq l sorted.1 old.1 in
    elim (Bool-cases (bytes_eq kv.key.user_key key)) [
      | inl same ↦ rw same (
          rw (later-newest key kv l sorted.0 ((bytes_eq_iff kv.key.user_key key).0 same))
            (ground (arith, old.0)))
      | inr other ↦ rw other ih
    ]

pub newest-absent :
    (k : List ℕ) (l : List KeyValue)
    → All (λ kv. bytes_eq kv.key.user_key k ≡ false) l
    → newest k l ≡ none
unfolding newest
newest-absent k [] h = refl
newest-absent k (kv ∷ l) h = rw h.0 (newest-absent k l h.1)

pub last_key-All :
    (e : KeyValue) (es : List KeyValue)
    → Sorted cmp_kv (e ∷ es)
    → All (λ kv. is_le (cmp_bytes kv.key.user_key (last_key e.key.user_key es)) ≡ true) (e ∷ es)
unfolding last_key
last_key-All e [] sorted = (ground (arith, cmp_bytes-same e.key.user_key), tt)
last_key-All e (f ∷ es) sorted =
    let after = last_key-All f es sorted.1 in
    (
      le_trans cmp_bytes cmp_bytes-IsOrder e.key.user_key f.key.user_key
          (last_key f.key.user_key es) (LeKv-key e f sorted.0.0) after.0,
      after,
    )

-- What all entries of a block are at most, its last key is at most.
last_key-least :
    (e : KeyValue) (es : List KeyValue) (k : List ℕ)
    → All (λ kv. is_le (cmp_bytes kv.key.user_key k) ≡ true) (e ∷ es)
    → is_le (cmp_bytes (last_key e.key.user_key es) k) ≡ true
unfolding last_key
last_key-least e [] k h = h.0
last_key-least e (f ∷ es) k h = last_key-least f es k h.1

last_key-found :
    (e : KeyValue) (es : List KeyValue) (k : List ℕ)
    → newest k (e ∷ es) ≡ none
    → bytes_eq (last_key e.key.user_key es) k ≡ false
unfolding last_key newest
last_key-found e [] k h = ground arith
last_key-found e (f ∷ es) k h = last_key-found f es k (ground arith)

outside :
    (min max k x : List ℕ)
    → is_le (cmp_bytes min x) ≡ true
    → is_le (cmp_bytes x max) ≡ true
    → (is_le (cmp_bytes min k) && is_le (cmp_bytes k max)) ≡ false
    → bytes_eq x k ≡ false
outside min max k x low high out = elim (Bool-cases (bytes_eq x k)) [
  | inl same ↦
      let e = (bytes_eq_iff x k).0 same in
      ground (arith, ap (cmp_bytes min) e, ap (λ j. cmp_bytes j max) e)
  | inr other ↦ other
]

All-outside :
    (min max k : List ℕ) (l : List KeyValue)
    → (is_le (cmp_bytes min k) && is_le (cmp_bytes k max)) ≡ false
    → All (λ kv. is_le (cmp_bytes min kv.key.user_key) ≡ true) l
    → All (λ kv. is_le (cmp_bytes kv.key.user_key max) ≡ true) l
    → All (λ kv. bytes_eq kv.key.user_key k ≡ false) l
All-outside min max k [] out low high = tt
All-outside min max k (kv ∷ l) out low high =
    (outside min max k kv.key.user_key low.0 high.0 out, All-outside min max k l out low.1 high.1)

pub min_key-All :
    (e : KeyValue) (es : List KeyValue)
    → Sorted cmp_kv (e ∷ es)
    → All (λ kv. is_le (cmp_bytes e.key.user_key kv.key.user_key) ≡ true) (e ∷ es)
min_key-All e es sorted = (
  ground (arith, cmp_bytes-same e.key.user_key),
  All-map (LeKv e) (λ kv. is_le (cmp_bytes e.key.user_key kv.key.user_key) ≡ true) (LeKv-key e) es
      sorted.0,
)

-- No entry of a block has a key outside of its range.
pub newest-outside :
    (k : List ℕ) (e : KeyValue) (es : List KeyValue)
    → Sorted cmp_kv (e ∷ es)
    → (is_le (cmp_bytes e.key.user_key k) && is_le (cmp_bytes k (last_key e.key.user_key es)))
      ≡ false
    → newest k (e ∷ es) ≡ none
newest-outside k e es sorted out = newest-absent k (e ∷ es) (
    All-outside e.key.user_key (last_key e.key.user_key es) k (e ∷ es) out (min_key-All e es sorted)
      (last_key-All e es sorted))

-- Every entry behind a block has a key that is at least the block's last.
pub last_key-before :
    (e : KeyValue) (es r : List KeyValue)
    → Sorted cmp_kv ((e ∷ es) ++ r)
    → All (λ kv. is_le (cmp_bytes (last_key e.key.user_key es) kv.key.user_key) ≡ true) r
unfolding last_key
last_key-before e [] r sorted =
    All-map (LeKv e) (λ kv. is_le (cmp_bytes e.key.user_key kv.key.user_key) ≡ true) (LeKv-key e) r
      sorted.0
last_key-before e (f ∷ es) r sorted = last_key-before f es r sorted.1

-- A key in a block's range that the block does not hold is nowhere behind it.
newest-behind :
    (k : List ℕ) (e : KeyValue) (es r : List KeyValue)
    → Sorted cmp_kv ((e ∷ es) ++ r)
    → is_le (cmp_bytes k (last_key e.key.user_key es)) ≡ true
    → newest k (e ∷ es) ≡ none
    → newest k r ≡ none
newest-behind k e es r sorted le absent =
    let last = last_key e.key.user_key es in
    let lt : cmp_bytes k last ≡ Ordering.lt =
      ground (arith, cmp_bytes-eq k last, bytes_eq_iff last k, last_key-found e es k absent) in
    newest-none k r (
      All-map (λ kv. is_le (cmp_bytes last kv.key.user_key) ≡ true)
        (λ kv. cmp_bytes k kv.key.user_key ≡ Ordering.lt)
        (λ kv h. lt_le_trans cmp_bytes cmp_bytes-IsOrder k last kv.key.user_key lt h) r
        (last_key-before e es r sorted))

-- So the block of a key decides.
pub newest-covered :
    (k : List ℕ) (e : KeyValue) (es r : List KeyValue)
    → Sorted cmp_kv ((e ∷ es) ++ r)
    → is_le (cmp_bytes k (last_key e.key.user_key es)) ≡ true
    → newest k ((e ∷ es) ++ r) ≡ newest k (e ∷ es)
newest-covered k e es r sorted le = elim (Option-cases (newest k (e ∷ es))) [
  | inl absent ↦
      newest-append k (e ∷ es) r sorted
      ∙ ap (λ o. or_else o (newest k r)) absent
      ∙ newest-behind k e es r sorted le absent
      ∙ sym absent
  | inr (w, found) ↦
      newest-append k (e ∷ es) r sorted ∙ ap (λ o. or_else o (newest k r)) found ∙ sym found
]
