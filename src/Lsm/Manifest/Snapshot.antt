-- ===== src/Lsm/Manifest/Snapshot.antt =====
-- A snapshot edit rebuilds its version, so that a checkpoint loses nothing.
use mathlib.Core.List.{foldl, foldl-append}
use strata_db.Prelude.{◌≡◌, ap, ◌∙◌, List, [], ◌∷◌, ◌++◌, map, append_assoc, append-nil}
use strata_db.Lsm.Manifest.{
  RunDescriptor, ManifestEdit, Version, add_run, empty_version, apply_op, apply, to_snapshot,
  replay_edits,
}

apply-add_runs :
    (v : Version) (rs : List RunDescriptor)
    → apply v (map add_run rs)
      ≡ record { runs = v.runs ++ rs; next_sst_id = v.next_sst_id; last_seq = v.last_seq }
unfolding apply
apply-add_runs v [] = rw (append-nil v.runs)
apply-add_runs v (r ∷ rs) =
    apply-add_runs (apply_op v (add_run r)) rs
    ∙ ap (λ l. record { runs = l; next_sst_id = v.next_sst_id; last_seq = v.last_seq })
        (append_assoc v.runs (r ∷ []) rs)

-- A snapshot applied to any version adds its runs to those that are there.
pub runs-apply-to_snapshot : (v w : Version) → (apply v (to_snapshot w)).runs ≡ v.runs ++ w.runs
unfolding to_snapshot
runs-apply-to_snapshot v w =
    unfold apply in rw foldl-append (ap (λ (u : Version). u.runs) (apply-add_runs v w.runs))

-- Applied to the empty version, the snapshot of a version gives that version back.
pub apply-to_snapshot : (v : Version) → apply empty_version (to_snapshot v) ≡ v
unfolding apply to_snapshot
apply-to_snapshot v = rw foldl-append (rw (apply-add_runs empty_version v.runs))

-- A manifest that starts with a snapshot replays to what the snapshot's version and the later edits
-- give, so a checkpoint can stand for every edit before it.
pub replay_after_checkpoint :
    (before after : List ManifestEdit)
    → replay_edits empty_version (to_snapshot (replay_edits empty_version before) ∷ after)
      ≡ replay_edits empty_version (before ++ after)
unfolding replay_edits
replay_after_checkpoint before after =
    rw (apply-to_snapshot (foldl apply empty_version before)) (rw foldl-append)
