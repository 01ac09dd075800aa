-- ===== src/Lsm/Key.antt =====
-- crates/lsm/src/key.rs: keys, records and key ranges.
pub mod Laws
use strata_db.Prelude.{
  ℕ, List, [], ◌∷◌, Bool, true, false, ◌&&◌, ◌==◌, if◌then◌else◌, compare, Ordering,
}
use strata_db.Prelude.Order.{then_with, is_le, cmp_bytes}

pub data OpType : Type 0 where
  put delete : OpType

pub record InternalKey : Type 0 where
  pub user_key : List ℕ
  pub seq : ℕ
  pub op : OpType

-- `Ord for InternalKey`: the user key ascending, then the sequence number descending.
unfoldable pub cmp_key : InternalKey → InternalKey → Ordering
cmp_key a b = then_with (cmp_bytes a.user_key b.user_key) (compare b.seq a.seq)

pub record KeyValue : Type 0 where
  pub key : InternalKey
  pub value : List ℕ

abbrev pub cmp_kv : KeyValue → KeyValue → Ordering
cmp_kv a b = cmp_key a.key b.key

-- `==` of byte strings.
unfoldable pub bytes_eq : List ℕ → List ℕ → Bool
bytes_eq [] [] = true
bytes_eq [] (y ∷ ys) = false
bytes_eq (x ∷ xs) [] = false
bytes_eq (x ∷ xs) (y ∷ ys) = x == y && bytes_eq xs ys

pub record KeyRange : Type 0 where
  pub min : List ℕ
  pub max : List ℕ

unfoldable pub contains : KeyRange → List ℕ → Bool
contains r key = is_le (cmp_bytes r.min key) && is_le (cmp_bytes key r.max)

-- `Ord::min` and `Ord::max` of byte strings.
unfoldable pub min_bytes : List ℕ → List ℕ → List ℕ
min_bytes a b = if is_le (cmp_bytes a b) then a else b

unfoldable pub max_bytes : List ℕ → List ℕ → List ℕ
max_bytes a b = if is_le (cmp_bytes a b) then b else a

unfoldable pub union : KeyRange → KeyRange → KeyRange
unfolding min_bytes max_bytes
union a b = record { min = min_bytes a.min b.min; max = max_bytes a.max b.max }
