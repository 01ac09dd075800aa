-- ===== src/Lsm/Manifest.antt =====
-- crates/lsm/src/manifest/mod.rs: the tree's structure as a fold of edits. Run ids, file ids and
-- levels are the numbers that the source wraps.
pub mod Codec
pub mod Snapshot
pub mod Manager
use mathlib.Core.List.{foldl, flat_map}
use strata_db.Prelude.{ℕ, List, [], ◌∷◌, ◌++◌, map, Bool, ◌==◌, if◌then◌else◌}

pub record RunDescriptor : Type 0 where
  pub level : ℕ
  pub run : ℕ
  pub files : List ℕ

pub data ManifestOp : Type 0 where
  add_run : RunDescriptor → ManifestOp
  remove_run : ℕ → ManifestOp
  set_next_sst_id : ℕ → ManifestOp
  set_last_seq : ℕ → ManifestOp

-- `ManifestEdit`: the ops of one atomic batch.
abbrev pub ManifestEdit : Type 0
ManifestEdit = List ManifestOp

pub record Version : Type 0 where
  pub runs : List RunDescriptor
  pub next_sst_id : ℕ
  pub last_seq : ℕ

-- `Version::default()`
abbrev pub empty_version : Version
empty_version = record { runs = []; next_sst_id = 0; last_seq = 0 }

-- `runs.retain(|r| r.run != id)`
unfoldable pub retain_other : ℕ → List RunDescriptor → List RunDescriptor
retain_other id [] = []
retain_other id (r ∷ rs) = let rest = retain_other id rs in if r.run == id then rest else r ∷ rest

unfoldable pub apply_op : Version → ManifestOp → Version
unfolding retain_other
apply_op v (add_run run) = record v { runs = v.runs ++ (run ∷ []) }
apply_op v (remove_run id) = record v { runs = retain_other id v.runs }
apply_op v (set_next_sst_id next) = record v { next_sst_id = next }
apply_op v (set_last_seq seq) = record v { last_seq = seq }

-- `Version::apply`
unfoldable pub apply : Version → ManifestEdit → Version
unfolding apply_op
apply = foldl apply_op

-- `Version::to_snapshot`
unfoldable pub to_snapshot : Version → ManifestEdit
to_snapshot v = map add_run v.runs ++ (set_next_sst_id v.next_sst_id ∷ set_last_seq v.last_seq ∷ [])

-- `Version::runs_in`
unfoldable pub runs_in : ℕ → List RunDescriptor → List RunDescriptor
runs_in level [] = []
runs_in level (r ∷ rs) = let rest = runs_in level rs in if r.level == level then r ∷ rest else rest

-- `Version::live_files`
unfoldable pub live_files : Version → List ℕ
live_files v = flat_map (λ r. r.files) v.runs

-- The fold over a stream of edits, as recovery replays it.
unfoldable pub replay_edits : Version → List ManifestEdit → Version
unfolding apply
replay_edits = foldl apply
