-- ===== src/Filesystem/Policies/Clock.antt =====
-- crates/filesystem/src/cache/policies.rs, `Clock`: a second chance for referenced ids.
pub mod Sweep
use strata_db.Prelude.{
  ℕ, zero, suc, ◌+◌, ◌-◌, ◌*◌, List, [], ◌∷◌, ◌++◌, Option, none, some, Bool, true, false, not,
  length, take, get_elem?, ltb, ◌==◌, if◌then◌else◌, compare, Ordering,
}
use strata_db.Prelude.Maps.{lookup, insert, erase}
use strata_db.Filesystem.Policies.{victim, id_of, or_default, cmp_pair}

pub record Clock : Type 0 where
  pub ring : List ℕ
  pub referenced : List (ℕ × Bool)

unfoldable pub new : Clock
new = record { ring = []; referenced = [] }

abbrev pub is_some : {A : Type 0} → Option A → Bool
is_some none = false
is_some (some a) = true

unfoldable pub record_access : ℕ → Clock → Clock
record_access id p = record {
  ring = if is_some (lookup id p.referenced) then p.ring else p.ring ++ (id ∷ []);
  referenced = insert id true p.referenced;
}

-- The sweep: at most `steps` ids are taken from the front of the ring.
unfoldable pub sweep : (ℕ → Bool) → ℕ → Clock → Option ℕ × Clock
sweep evictable zero p = (none, p)
sweep evictable (suc steps) p = elim p.ring [
  | [] ↦ (none, p)
  | id ∷ ring ↦
      let turned = ring ++ (id ∷ []) in
      let skipped = sweep evictable steps (record { ring = turned; referenced = p.referenced }) in
      let spared =
        sweep evictable steps
          (record { ring = turned; referenced = insert id false p.referenced }) in
      if not (evictable id)
      then skipped
      else if or_default false (lookup id p.referenced)
      then spared
      else (some id, record { ring = turned; referenced = p.referenced })
]

-- The ring and the reference bits are behind `RefCell`s, so that a sweep moves them.
unfoldable pub evict_candidate : (ℕ → Bool) → Clock → Option ℕ × Clock
unfolding sweep
evict_candidate evictable p = sweep evictable (length p.ring * 2 + 1) p

unfoldable pub retain_not : ℕ → List ℕ → List ℕ
retain_not id [] = []
retain_not id (x ∷ l) = let rest = retain_not id l in if x == id then rest else x ∷ rest

unfoldable pub remove : ℕ → Clock → Clock
remove id p = record { ring = retain_not id p.ring; referenced = erase id p.referenced }
