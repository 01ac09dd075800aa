-- ===== src/Lsm/Journaled/Store.antt =====
-- The store under a journaled memtable: a log of puts, and the memtable of `Lsm` as such a store.
use strata_db.Prelude.{
  ℕ, ◌≡◌, sym, ap, ◌∙◌, List, [], ◌∷◌, ◌++◌, Result, ok, and_then, Result-cases, and_then_assoc,
  and_then-cong, inl, inr, arith,
}
use strata_db.Lsm.Error.{WriteError}
use strata_db.Lsm.Key.{KeyValue}
use strata_db.Lsm.Memtable.{BTreeMemtable, put_entry, clear, with_capacity}
use strata_db.Lsm.Journaled.{MemStore}

module _ {M : Type 0} (store : MemStore M) where
  -- The store after the puts of `log`.
  unfoldable pub put_all : List KeyValue → M → Result WriteError M
  put_all [] m = ok m
  put_all (kv ∷ log) m = and_then (store.put kv m) (λ m'. put_all log m')

  pub put_all-append :
      (log : List KeyValue) (kv : KeyValue) (m : M)
      → put_all (log ++ (kv ∷ [])) m ≡ and_then (put_all log m) (λ m'. store.put kv m')
  unfolding put_all
  put_all-append [] kv m = elim (Result-cases (store.put kv m)) [
    | inl (m', e) ↦ rw e
    | inr (w, e) ↦ rw e
  ]
  put_all-append (e ∷ log) kv m =
      and_then-cong (store.put e m) _ _ (put_all-append log kv)
      ∙ sym (and_then_assoc (store.put e m) (put_all log) (store.put kv))

  -- A clear gives back the store that was there before the first put.
  unfoldable pub Clears : M → Type 0
  Clears fresh = (log : List KeyValue) (m : M) → put_all log fresh ≡ ok m → store.clear m ≡ fresh

-- The memtable of `Lsm`.
abbrev pub btree : MemStore BTreeMemtable
btree = record { put = put_entry; clear = clear }

put_entry-capacity :
    (kv : KeyValue) (m m' : BTreeMemtable) → put_entry kv m ≡ ok m' → m'.capacity ≡ m.capacity
unfolding put_entry
put_entry-capacity kv m m' h = ground arith

put_all-capacity :
    (log : List KeyValue) (m m' : BTreeMemtable)
    → put_all btree log m ≡ ok m'
    → m'.capacity ≡ m.capacity
unfolding put_all
put_all-capacity [] m m' h = cc
put_all-capacity (kv ∷ log) m m' h = elim (Result-cases (put_entry kv m)) [
  | inl (m1, e) ↦ put_all-capacity log m1 m' (rw e at h) ∙ put_entry-capacity kv m m1 e
  | inr (w, e) ↦ let h' = (rw e at h) in cc
]

-- `BTreeMemtable` is a store that a clear empties.
pub btree-Clears : (capacity : ℕ) → Clears btree (with_capacity capacity)
unfolding Clears with_capacity clear
btree-Clears capacity log m h =
    ap (λ c. record { store = []; capacity = c; size = 0 })
      (put_all-capacity log (with_capacity capacity) m h)
