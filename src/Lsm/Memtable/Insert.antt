-- ===== src/Lsm/Memtable/Insert.antt =====
-- The entries of the memtable's `BTreeMap` stand in strictly ascending order of their keys.
use mathlib.Core.Path.{subst}
use strata_db.Prelude.{
  ℕ, ◌+◌, ◌≤◌, ◌≡◌, ◌≢◌, refl, none, some, ◌⊎◌, inl, inr, List, [], ◌∷◌, false, not, ◌&&◌, ltb,
  length, Bool-cases, All, All-map, ok, Ordering, arith,
}
use strata_db.Prelude.Order.{Ordering-cases}
use strata_db.Lsm.Key.{InternalKey, KeyValue, cmp_kv, cmp_key}
use strata_db.Lsm.Key.Laws.{cmp_kv-IsOrder}
use strata_db.Lsm.Memtable.Contents.{
  value_at, buffered, bytes_at, value_at-first, value_at-later, value_at-insert,
  value_at-insert_other, length-same_key, bytes_at-eq, bytes_at-none, bytes_at-some,
}
use strata_db.Lsm.Memtable.{insert_entry, BTreeMemtable, is_empty, put_entry}

abbrev pub Before : KeyValue → KeyValue → Type 0
Before a b = cmp_kv a b ≡ Ordering.lt

unfoldable pub Ordered : List KeyValue → Type 0
Ordered [] = Unit
Ordered (kv ∷ l) = All (Before kv) l × Ordered l

insert-Before :
    (p kv : KeyValue) (l : List KeyValue)
    → Before p kv
    → All (Before p) l
    → All (Before p) (insert_entry kv l)
unfolding insert_entry
insert-Before p kv [] h all = (h, tt)
insert-Before p kv (e ∷ l) h all =
    Ordering-cases (cmp_key kv.key e.key) (λ c. rw (c, All) (h, all)) (λ c. rw (c, All) all)
      (λ c. rw (c, All) (all.0, insert-Before p kv l h all.1))

pub insert-Ordered : (kv : KeyValue) (l : List KeyValue) → Ordered l → Ordered (insert_entry kv l)
unfolding insert_entry Ordered
insert-Ordered kv [] h = (tt, tt)
insert-Ordered kv (e ∷ l) h =
    Ordering-cases (cmp_key kv.key e.key)
      (λ c.
        rw (c, Ordered)
          ((c, All-map (Before e) (Before kv) (λ b. cmp_kv-IsOrder.trans kv e b c) l h.0), h))
      (λ c. rw (c, Ordered) h)
      (λ c. rw (c, Ordered) (insert-Before e kv l (flip c) h.0, insert-Ordered kv l h.1))
  where
    flip : cmp_key kv.key e.key ≡ Ordering.gt → Before e kv
    flip c = ground (arith, cmp_kv-IsOrder.swap kv e)

value_at-beyond : (kv : KeyValue) (l : List KeyValue) → All (Before kv) l → value_at kv.key l ≡ none
unfolding value_at
value_at-beyond kv [] h = refl
value_at-beyond kv (e ∷ l) h = rw (h.0, value_at) (value_at-beyond kv l h.1)

-- The entry adds its bytes, and the entry that it replaces gives up its own.
buffered-insert :
    (kv : KeyValue) (l : List KeyValue)
    → Ordered l
    → buffered (insert_entry kv l) + bytes_at kv.key l
      ≡ buffered l + (length kv.key.user_key + length kv.value)
unfolding insert_entry Ordered buffered
buffered-insert kv [] h = omega (arith, bytes_at-none kv.key [] (value_at-beyond kv [] tt))
buffered-insert kv (e ∷ l) h =
    Ordering-cases (cmp_key kv.key e.key)
      (λ c.
        rw (c, insert_entry)
          (omega (
            arith,
            bytes_at-none kv.key (e ∷ l) (
                value_at-beyond kv (e ∷ l)
                  (c, All-map (Before e) (Before kv) (λ b. cmp_kv-IsOrder.trans kv e b c) l h.0)),
          )))
      (λ c.
        rw (c, insert_entry)
          (omega (
            arith,
            bytes_at-some kv.key (e ∷ l) e.value (value_at-first kv.key e l c),
            length-same_key kv.key e.key c,
          )))
      (λ c.
        rw (c, insert_entry)
          (omega (
            arith,
            buffered-insert kv l h.1,
            bytes_at-eq kv.key (e ∷ l) l (value_at-later kv.key e l (λ q. ground (arith, c, q))),
          )))

within :
    (l : List KeyValue) (size capacity : ℕ)
    → (not (is_empty l) && ltb capacity size) ≡ false
    → (l ≡ []) ⊎ (size ≤ capacity)
within [] size capacity h = inl refl
within (kv ∷ l) size capacity h = inr (ground arith)

-- On entries in strict key order an accepted put keeps that order, the entry's value is then held
-- at its key and every other key holds what it held, the size grows by what the bytes held grow by
-- and by those of the entry that was replaced, if any, and it stays within the capacity unless the
-- table was empty.
pub put_entry-Ordered :
    (kv : KeyValue) (m m' : BTreeMemtable)
    → Ordered m.store
    → put_entry kv m ≡ ok m'
    → Ordered m'.store
      × (value_at kv.key m'.store ≡ some kv.value)
      × ((k : InternalKey)
          → cmp_key k kv.key ≢ Ordering.eq
          → value_at k m'.store ≡ value_at k m.store)
      × (m'.size + buffered m.store ≡ m.size + (buffered m'.store + bytes_at kv.key m.store))
      × ((m.store ≡ []) ⊎ (m'.size ≤ m.capacity))
unfolding put_entry
put_entry-Ordered kv m m' h e =
    elim (Bool-cases (
      not (is_empty m.store)
      && ltb m.capacity (m.size + (length kv.key.user_key + length kv.value)))) [
        | inl full ↦ let refused = (rw (full, put_entry) at e) in cc
        | inr fits ↦
            let taken = (rw (fits, put_entry) at e) in
            let same : grown ≡ m' = cc in
            subst
              (λ n.
                Ordered n.store
                × (value_at kv.key n.store ≡ some kv.value)
                × ((k : InternalKey)
                    → cmp_key k kv.key ≢ Ordering.eq
                    → value_at k n.store ≡ value_at k m.store)
                × (n.size + buffered m.store
                    ≡ m.size + (buffered n.store + bytes_at kv.key m.store))
                × ((m.store ≡ []) ⊎ (n.size ≤ m.capacity)))
              same
              (
                insert-Ordered kv m.store h,
                value_at-insert kv m.store,
                λ k other. value_at-insert_other k kv m.store other,
                omega (arith, buffered-insert kv m.store h),
                within m.store _ m.capacity fits,
              )
      ]
  where
    grown : BTreeMemtable
    grown = record {
      store = insert_entry kv m.store;
      capacity = m.capacity;
      size = m.size + (length kv.key.user_key + length kv.value);
    }
