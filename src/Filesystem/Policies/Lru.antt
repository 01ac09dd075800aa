-- ===== src/Filesystem/Policies/Lru.antt =====
-- crates/filesystem/src/cache/policies.rs, `Lru`: evict the least recently used id.
pub mod Recency
use strata_db.Prelude.{
  ℕ, zero, suc, ◌+◌, ◌-◌, ◌*◌, List, [], ◌∷◌, ◌++◌, Option, none, some, Bool, true, false, not,
  length, take, get_elem?, ltb, ◌==◌, if◌then◌else◌, compare, Ordering,
}
use strata_db.Prelude.Maps.{lookup, insert, erase}
use strata_db.Filesystem.Policies.{victim, id_of, or_default, cmp_pair}

pub record Lru : Type 0 where
  pub clock : ℕ
  pub last : List (ℕ × ℕ)

unfoldable pub new : Lru
new = record { clock = 0; last = [] }

unfoldable pub record_access : ℕ → Lru → Lru
record_access id p = record { clock = p.clock + 1; last = insert id (p.clock + 1) p.last }

unfoldable pub evict_candidate : (ℕ → Bool) → Lru → Option ℕ
evict_candidate evictable p = id_of (victim compare evictable p.last)

unfoldable pub remove : ℕ → Lru → Lru
remove id p = record { clock = p.clock; last = erase id p.last }
