-- ===== src/Lsm/Memtable.antt =====
-- crates/lsm/src/memstore/btree.rs. The `BTreeMap` is the list of its entries in key order: an
-- insert at an equal key keeps the old key and takes the new value, and `range` panics (`none`)
-- when its start lies after its end, or when both are excluded and equal.
pub mod Contents
pub mod Insert
pub mod Lookup
pub mod Scan
use strata_db.Prelude.{
  ℕ, ◌+◌, ◌-◌, ◌^◌, List, [], ◌∷◌, Option, none, some, Bool, true, false, not, ◌&&◌, length, ltb,
  leb, ◌==◌, if◌then◌else◌, Result, ok, err, Ordering,
}
use strata_db.Prelude.Order.{is_lt, is_le}
use strata_db.Lsm.Error.{WriteError, store_full}
use strata_db.Lsm.Key.{OpType, put, delete, InternalKey, KeyValue, cmp_key, bytes_eq}

abbrev pub u64_max : ℕ
u64_max = 2 ^ 64 - 1

-- `BTreeMap::insert`
unfoldable pub insert_entry : KeyValue → List KeyValue → List KeyValue
insert_entry kv [] = kv ∷ []
insert_entry kv (e ∷ rest) =
    let further = e ∷ insert_entry kv rest in
    elim (cmp_key kv.key e.key) [
      | Ordering.lt ↦ kv ∷ (e ∷ rest)
      | Ordering.eq ↦ record { key = e.key; value = kv.value } ∷ rest
      | Ordering.gt ↦ further
    ]

-- `std::ops::Bound`
pub data Bound {ℓ} (K : Type ℓ) : Type ℓ where
  included : K → Bound K
  excluded : K → Bound K
  unbounded : Bound K

abbrev pub above_start : Bound InternalKey → InternalKey → Bool
above_start (included s) k = is_le (cmp_key s k)
above_start (excluded s) k = is_lt (cmp_key s k)
above_start unbounded k = true

abbrev pub below_end : Bound InternalKey → InternalKey → Bool
below_end (included e) k = is_le (cmp_key k e)
below_end (excluded e) k = is_lt (cmp_key k e)
below_end unbounded k = true

-- Whether `BTreeMap::range` accepts the bounds.
abbrev pub in_order : Bound InternalKey → Bound InternalKey → Bool
in_order (included s) (included e) = is_le (cmp_key s e)
in_order (included s) (excluded e) = is_le (cmp_key s e)
in_order (excluded s) (included e) = is_le (cmp_key s e)
in_order (excluded s) (excluded e) = is_lt (cmp_key s e)
in_order _ _ = true

-- The entries that pass a test, in order.
unfoldable pub keep : (KeyValue → Bool) → List KeyValue → List KeyValue
keep p [] = []
keep p (kv ∷ rest) = let others = keep p rest in if p kv then kv ∷ others else others

-- `BTreeMap::range`
unfoldable pub range :
    Bound InternalKey → Bound InternalKey → List KeyValue → Option (List KeyValue)
unfolding keep
range s e l =
    if in_order s e then some (keep (λ kv. above_start s kv.key && below_end e kv.key) l) else none

pub record BTreeMemtable : Type 0 where
  pub store : List KeyValue
  pub capacity : ℕ
  pub size : ℕ

-- `with_capacity`
unfoldable pub with_capacity : ℕ → BTreeMemtable
with_capacity capacity = record { store = []; capacity = capacity; size = 0 }

abbrev pub is_empty : List KeyValue → Bool
is_empty [] = true
is_empty (kv ∷ l) = false

-- `WriteStore::put`
unfoldable pub put_entry : KeyValue → BTreeMemtable → Result WriteError BTreeMemtable
unfolding insert_entry
put_entry kv m =
    let added = length kv.key.user_key + length kv.value in
    if not (is_empty m.store) && ltb m.capacity (m.size + added)
    then err store_full
    else ok
        (record { store = insert_entry kv m.store; capacity = m.capacity; size = m.size + added })

-- `MemStore::clear`
unfoldable pub clear : BTreeMemtable → BTreeMemtable
clear m = record { store = []; capacity = m.capacity; size = 0 }

-- The first entry of `range(probe..)`.
unfoldable pub first_from : InternalKey → List KeyValue → Option KeyValue
first_from probe [] = none
first_from probe (kv ∷ rest) =
    let later = first_from probe rest in if is_le (cmp_key probe kv.key) then some kv else later

-- `ReadStore::get_at`
unfoldable pub get_at : List ℕ → ℕ → BTreeMemtable → Option (List ℕ)
unfolding first_from
get_at key max_seq m =
    elim (first_from (record { user_key = key; seq = max_seq; op = put }) m.store) [
      | none ↦ none
      | some kv ↦
          if bytes_eq kv.key.user_key key
          then (elim kv.key.op [ put ↦ some kv.value | delete ↦ none ])
          else none
    ]

-- The start of a scan: from the newest version of an included key, or behind the oldest of an
-- excluded one.
abbrev pub start_key : Bound (List ℕ) → Bound InternalKey
start_key (included k) = included (record { user_key = k; seq = u64_max; op = put })
start_key (excluded k) = excluded (record { user_key = k; seq = 0; op = put })
start_key unbounded = unbounded

abbrev pub end_key : Bound (List ℕ) → Bound InternalKey
end_key (included k) = included (record { user_key = k; seq = 0; op = put })
end_key (excluded k) = excluded (record { user_key = k; seq = u64_max; op = put })
end_key unbounded = unbounded

-- `ReadStore::scan_at`
unfoldable pub scan_at :
    Bound (List ℕ) → Bound (List ℕ) → ℕ → BTreeMemtable → Option (List KeyValue)
unfolding range keep
scan_at s e max_seq m = elim (range (start_key s) (end_key e) m.store) [
  | none ↦ none
  | some l ↦ some (keep (λ kv. leb kv.key.seq max_seq) l)
]
