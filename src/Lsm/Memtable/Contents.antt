-- ===== src/Lsm/Memtable/Contents.antt =====
-- What the entries of the memtable hold at a key, and their bytes, as an insert changes them.
use strata_db.Prelude.{
  ℕ, ◌+◌, ◌≡◌, ◌≢◌, refl, sym, ap, ◌∙◌, List, [], ◌∷◌, Option, none, some, length, Ordering, arith,
}
use strata_db.Prelude.Order.{Ordering-cases, cmp_bytes-eq}
use strata_db.Lsm.Key.{InternalKey, KeyValue, cmp_key}
use strata_db.Lsm.Key.Laws.{cmp_kv-IsOrder}
use strata_db.Lsm.Memtable.{insert_entry}

-- The value that the entries hold at a key, searched from the front without regard to their order.
unfoldable pub value_at : InternalKey → List KeyValue → Option (List ℕ)
value_at k [] = none
value_at k (e ∷ rest) =
    let later = value_at k rest in
    elim (cmp_key k e.key) [
      | Ordering.lt ↦ later
      | Ordering.eq ↦ some e.value
      | Ordering.gt ↦ later
    ]

-- The bytes of keys and values that the entries hold.
unfoldable pub buffered : List KeyValue → ℕ
buffered [] = 0
buffered (e ∷ l) = length e.key.user_key + length e.value + buffered l

-- The bytes of the entry at a key, none where there is no such entry.
unfoldable pub bytes_at : InternalKey → List KeyValue → ℕ
bytes_at k l = elim (value_at k l) [ none ↦ 0 | some value ↦ length k.user_key + length value ]

pub value_at-first :
    (k : InternalKey) (e : KeyValue) (l : List KeyValue)
    → cmp_key k e.key ≡ Ordering.eq
    → value_at k (e ∷ l) ≡ some e.value
unfolding value_at
value_at-first k e l h = rw (h, value_at) refl

pub value_at-later :
    (k : InternalKey) (e : KeyValue) (l : List KeyValue)
    → cmp_key k e.key ≢ Ordering.eq
    → value_at k (e ∷ l) ≡ value_at k l
unfolding value_at
value_at-later k e l h =
    Ordering-cases (cmp_key k e.key) (λ c. rw (c, value_at) refl) (λ c. absurd (h c))
      (λ c. rw (c, value_at) refl)

-- The entry is found at its key afterwards.
pub value_at-insert :
    (kv : KeyValue) (l : List KeyValue) → value_at kv.key (insert_entry kv l) ≡ some kv.value
unfolding insert_entry
value_at-insert kv [] = value_at-first kv.key kv [] (cmp_kv-IsOrder.same kv)
value_at-insert kv (e ∷ l) =
    Ordering-cases (cmp_key kv.key e.key)
      (λ c. rw (c, insert_entry) (value_at-first kv.key kv (e ∷ l) (cmp_kv-IsOrder.same kv)))
      (λ c.
        rw (c, insert_entry) (value_at-first kv.key (record { key = e.key; value = kv.value }) l c))
      (λ c.
        rw (c, insert_entry)
          (value_at-later kv.key e (insert_entry kv l) (λ q. ground (arith, c, q))
            ∙ value_at-insert kv l))

value_at-cons :
    (k : InternalKey) (e : KeyValue) (l l' : List KeyValue)
    → value_at k l ≡ value_at k l'
    → value_at k (e ∷ l) ≡ value_at k (e ∷ l')
unfolding value_at
value_at-cons k e l l' h =
    Ordering-cases (cmp_key k e.key) (λ c. rw (c, value_at) h) (λ c. rw (c, value_at) refl)
      (λ c. rw (c, value_at) h)

-- Every other key reads as before.
pub value_at-insert_other :
    (k : InternalKey) (kv : KeyValue) (l : List KeyValue)
    → cmp_key k kv.key ≢ Ordering.eq
    → value_at k (insert_entry kv l) ≡ value_at k l
unfolding insert_entry
value_at-insert_other k kv [] h = value_at-later k kv [] h
value_at-insert_other k kv (e ∷ l) h =
    Ordering-cases (cmp_key kv.key e.key)
      (λ c. rw (c, insert_entry) (value_at-later k kv (e ∷ l) h))
      (λ c.
        rw (c, insert_entry)
          (value_at-later k (record { key = e.key; value = kv.value }) l (apart c)
            ∙ sym (value_at-later k e l (apart c))))
      (λ c.
        rw (c, insert_entry)
          (value_at-cons k e (insert_entry kv l) l (value_at-insert_other k kv l h)))
  where
    apart : cmp_key kv.key e.key ≡ Ordering.eq → cmp_key k e.key ≢ Ordering.eq
    apart c q =
        let probe : KeyValue = record { key = k; value = [] } in
        ground (
          arith,
          h,
          c,
          q,
          cmp_kv-IsOrder.swap kv e,
          cmp_kv-IsOrder.swap probe kv,
          cmp_kv-IsOrder.cong probe e kv,
          cmp_kv-IsOrder.cong kv e kv,
          cmp_kv-IsOrder.same kv,
        )

pub length-same_key :
    (a b : InternalKey) → cmp_key a b ≡ Ordering.eq → length a.user_key ≡ length b.user_key
unfolding cmp_key
length-same_key a b h = ap length (cmp_bytes-eq a.user_key b.user_key (ground (arith, h)))

pub bytes_at-eq :
    (k : InternalKey) (l l' : List KeyValue)
    → value_at k l ≡ value_at k l'
    → bytes_at k l ≡ bytes_at k l'
unfolding bytes_at
bytes_at-eq k l l' h = rw (h, bytes_at) refl

pub bytes_at-none : (k : InternalKey) (l : List KeyValue) → value_at k l ≡ none → bytes_at k l ≡ 0
unfolding bytes_at
bytes_at-none k l h = rw (h, bytes_at) refl

pub bytes_at-some :
    (k : InternalKey) (l : List KeyValue) (value : List ℕ)
    → value_at k l ≡ some value
    → bytes_at k l ≡ length k.user_key + length value
unfolding bytes_at
bytes_at-some k l value h = rw (h, bytes_at) refl
