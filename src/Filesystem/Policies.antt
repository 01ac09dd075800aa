-- ===== src/Filesystem/Policies.antt =====
-- crates/filesystem/src/cache/policies.rs: the eviction policies, over the frame ids of the pool.
-- Maps are association lists, the `u64` clock does not wrap, and `min_by_key` over a map takes the
-- first minimum in the list's order.
pub mod Victim
mod Examples
pub mod Lru
pub mod LruK
pub mod Lfu
pub mod Clock
use strata_db.Prelude.{
  ℕ, zero, suc, ◌+◌, ◌-◌, ◌*◌, List, [], ◌∷◌, ◌++◌, Option, none, some, Bool, true, false, not,
  length, take, get_elem?, ltb, ◌==◌, if◌then◌else◌, compare, Ordering,
}
use strata_db.Prelude.Order.{then_with, is_le}
use strata_db.Prelude.Maps.{lookup, insert, erase}

-- The smaller of two entries; the first one where they are equal.
abbrev pub smaller : {V : Type 0} → (V → V → Ordering) → ℕ × V → Option (ℕ × V) → ℕ × V
smaller cmp e none = e
smaller cmp e (some f) = if is_le (cmp e.1 f.1) then e else f

-- `iter().filter(evictable).min_by_key(score)`
unfoldable pub victim :
    {V : Type 0} → (V → V → Ordering) → (ℕ → Bool) → List (ℕ × V) → Option (ℕ × V)
victim cmp evictable [] = none
victim cmp evictable (e ∷ m) =
    let others = victim cmp evictable m in
    if evictable e.0 then some (smaller cmp e others) else others

-- `map(|(id, _)| *id)`
unfoldable pub id_of : {V : Type 0} → Option (ℕ × V) → Option ℕ
id_of none = none
id_of (some e) = some e.0

-- `or_default`
abbrev pub or_default : {A : Type 0} → A → Option A → A
or_default d none = d
or_default d (some a) = a

-- `Ord` of `(u64, u64)`
abbrev pub cmp_pair : ℕ × ℕ → ℕ × ℕ → Ordering
cmp_pair a b = then_with (compare a.0 b.0) (compare a.1 b.1)
