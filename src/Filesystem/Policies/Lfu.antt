-- ===== src/Filesystem/Policies/Lfu.antt =====
-- crates/filesystem/src/cache/policies.rs, `Lfu`: evict the least frequently used id.
pub mod Frequency
use strata_db.Prelude.{
  ℕ, zero, suc, ◌+◌, ◌-◌, ◌*◌, List, [], ◌∷◌, ◌++◌, Option, none, some, Bool, true, false, not,
  length, take, get_elem?, ltb, ◌==◌, if◌then◌else◌, compare, Ordering,
}
use strata_db.Prelude.Maps.{lookup, insert, erase}
use strata_db.Filesystem.Policies.{victim, id_of, or_default, cmp_pair}

pub record Lfu : Type 0 where
  pub clock : ℕ
  pub freq : List (ℕ × (ℕ × ℕ))

unfoldable pub new : Lfu
new = record { clock = 0; freq = [] }

unfoldable pub record_access : ℕ → Lfu → Lfu
record_access id p =
    let e = or_default (0, 0) (lookup id p.freq) in
    record { clock = p.clock + 1; freq = insert id (e.0 + 1, p.clock + 1) p.freq }

unfoldable pub evict_candidate : (ℕ → Bool) → Lfu → Option ℕ
evict_candidate evictable p = id_of (victim cmp_pair evictable p.freq)

unfoldable pub remove : ℕ → Lfu → Lfu
remove id p = record { clock = p.clock; freq = erase id p.freq }
