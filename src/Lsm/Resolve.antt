-- ===== src/Lsm/Resolve.antt =====
-- crates/lsm/src/iterator.rs, `VersionResolver`, and lib.rs, `resolve`: one pair for each user key,
-- its newest version, tombstones dropped.
pub mod Newest
pub mod Output
use strata_db.Prelude.{
  ℕ, List, [], ◌∷◌, Option, none, some, Bool, true, false, if◌then◌else◌, Result, ok, err,
}
use strata_db.Lsm.Key.{OpType, put, delete, KeyValue, bytes_eq}

-- `last_key.as_deref() == Some(user_key)`
unfoldable pub same_key : Option (List ℕ) → List ℕ → Bool
same_key none k = false
same_key (some l) k = bytes_eq l k

-- `resolve` of lib.rs
unfoldable pub resolve : OpType → List ℕ → Option (List ℕ)
resolve put value = some value
resolve delete value = none

-- `VersionResolver` run over its whole input: each round of `next` looks at one item.
unfoldable pub resolve_versions :
    {E : Type 0} → Option (List ℕ) → List (Result E KeyValue) → List (Result E (List ℕ × List ℕ))
unfolding same_key resolve
resolve_versions last [] = []
resolve_versions last (err e ∷ rest) = err e ∷ resolve_versions last rest
resolve_versions last (ok kv ∷ rest) =
    let skipped = resolve_versions last rest in
    let others = resolve_versions (some kv.key.user_key) rest in
    if same_key last kv.key.user_key then skipped else elim (resolve kv.key.op kv.value) [
      | some v ↦ ok (kv.key.user_key, v) ∷ others
      | none ↦ others
    ]
