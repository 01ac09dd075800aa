-- ===== src/Filesystem/Policies/LruK.antt =====
-- crates/filesystem/src/cache/policies.rs, `LruK`: rank ids by their k-th last access.
pub mod Cold
use strata_db.Prelude.{
  ℕ, zero, suc, ◌+◌, ◌-◌, ◌*◌, List, [], ◌∷◌, ◌++◌, Option, none, some, Bool, true, false, not,
  length, take, get_elem?, ltb, ◌==◌, if◌then◌else◌, compare, Ordering,
}
use strata_db.Prelude.Maps.{lookup, insert, erase}
use strata_db.Filesystem.Policies.{victim, id_of, or_default, cmp_pair}

-- `hist` holds the last `k` access ticks of an id, newest first.
pub record LruK : Type 0 where
  pub k : ℕ
  pub clock : ℕ
  pub hist : List (ℕ × List ℕ)

-- `assert!(k >= 1)`
unfoldable pub new : ℕ → Option LruK
new zero = none
new (suc k) = some (record { k = suc k; clock = 0; hist = [] })

unfoldable pub record_access : ℕ → LruK → LruK
record_access id p =
    let ticks = or_default [] (lookup id p.hist) in
    record {
      k = p.k;
      clock = p.clock + 1;
      hist = insert id (take p.k ((p.clock + 1) ∷ ticks)) p.hist;
    }

-- The key `(kth, ticks[0])`; no history is empty.
unfoldable pub kth : ℕ → List ℕ → ℕ
kth k ticks = if ltb (length ticks) k then 0 else or_default 0 (get_elem? ticks (k - 1))

abbrev pub cmp_ticks : ℕ → List ℕ → List ℕ → Ordering
cmp_ticks k a b =
    cmp_pair (kth k a, or_default 0 (get_elem? a 0)) (kth k b, or_default 0 (get_elem? b 0))

unfoldable pub evict_candidate : (ℕ → Bool) → LruK → Option ℕ
evict_candidate evictable p = id_of (victim (cmp_ticks p.k) evictable p.hist)

unfoldable pub remove : ℕ → LruK → LruK
remove id p = record { k = p.k; clock = p.clock; hist = erase id p.hist }
