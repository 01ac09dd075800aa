-- ===== src/Lsm/Manifest/Manager/Examples.antt =====
-- Tests of the manifest, after the tests in crates/lsm/src/manifest.
use Prim.Native.Nat.{min}
use strata_db.Prelude.{ℕ, ◌<◌, ◌^◌, ◌≡◌, refl, List, [], ◌∷◌, some, length, All, ok, arith}
use strata_db.Filesystem.Codec.{to_be_bytes}
use strata_db.Journal.Log.{header}
use strata_db.Lsm.Manifest.{
  RunDescriptor, add_run, remove_run, set_next_sst_id, set_last_seq, ManifestEdit, Version,
  empty_version, to_snapshot, replay_edits,
}
use strata_db.Lsm.Manifest.Snapshot.{replay_after_checkpoint}
use strata_db.Lsm.Manifest.Codec.{encode_op, encode_edit, decode_edit}
use strata_db.Lsm.Manifest.Codec.RoundTrip.{FitsRun, FitsOp, decode_edit-encode_edit}
use strata_db.Lsm.Manifest.Manager.{ManifestManager, open_manifest, commit, checkpoint}
use strata_db.Lsm.Manifest.Manager.Recovery.{
  FitsEdit, started, committed, start, open_manifest-empty, manifest_recovers,
}
use strata_db.Lsm.Manifest.Manager.Leftover.{leftover, stale_runs_return}

abbrev byte_count : List ℕ → ℕ
byte_count p = min (length p) 255

byte_count-u32 : (p : List ℕ) → byte_count p < 2 ^ 32
byte_count-u32 p = omega arith

abbrev run_3 : RunDescriptor
run_3 = record { level = 0; run = 3; files = 3 ∷ [] }

-- The edit of a flush.
abbrev flush_edit : ManifestEdit
flush_edit = add_run run_3 ∷ set_next_sst_id 4 ∷ set_last_seq 9 ∷ []

run_3-fits : FitsRun run_3
run_3-fits = record {
  level = omega arith;
  run = omega arith;
  count = omega arith;
  files = (omega arith, tt);
}

flush_edit-ops : All FitsOp flush_edit
flush_edit-ops = (run_3-fits, (omega arith, (omega arith, tt)))

flush_edit-fits : FitsEdit flush_edit
unfolding encode_edit encode_op to_be_bytes
flush_edit-fits = record { count = omega arith; ops = flush_edit-ops; len = omega arith }

manifest_recovers_example :
    ((commit byte_count flush_edit (start byte_count byte_count-u32)).version
      ≡ replay_edits empty_version (flush_edit ∷ []))
    × (open_manifest byte_count (commit byte_count flush_edit (start byte_count byte_count-u32)).dir
        ≡ ok (commit byte_count flush_edit (start byte_count byte_count-u32)))
manifest_recovers_example =
    manifest_recovers byte_count byte_count-u32 (
      committed flush_edit (started (open_manifest-empty byte_count byte_count-u32))
        flush_edit-fits)

decode_edit-encode_edit_example : decode_edit (encode_edit flush_edit) ≡ ok flush_edit
decode_edit-encode_edit_example = decode_edit-encode_edit flush_edit (omega arith) flush_edit-ops

replay_after_checkpoint_example :
    replay_edits empty_version
      (to_snapshot (replay_edits empty_version (flush_edit ∷ [])) ∷ ((remove_run 3 ∷ []) ∷ []))
    ≡ replay_edits empty_version (flush_edit ∷ (remove_run 3 ∷ []) ∷ [])
replay_after_checkpoint_example =
    replay_after_checkpoint (flush_edit ∷ []) ((remove_run 3 ∷ []) ∷ [])

abbrev live_3 : Version
live_3 = record { runs = run_3 ∷ []; next_sst_id = 5; last_seq = 9 }

-- The run was removed after a checkpoint that had crashed before it moved `CURRENT`.
abbrev stale_manager : ManifestManager
stale_manager = record {
  dir = record { pointer = some 0; files = λ n. leftover byte_count byte_count-u32 live_3 };
  current = 0;
  journal = record { file = record { bytes = header; cursor = 6 } };
  version = record { runs = []; next_sst_id = 5; last_seq = 9 };
}

live_3-fits : FitsEdit (to_snapshot live_3)
unfolding encode_edit encode_op to_be_bytes to_snapshot
live_3-fits = record {
  count = omega arith;
  ops = (run_3-fits, (omega arith, (omega arith, tt)));
  len = omega arith;
}

none_live-fits : FitsEdit (to_snapshot stale_manager.version)
unfolding encode_edit encode_op to_be_bytes to_snapshot
none_live-fits = record {
  count = omega arith;
  ops = (omega arith, (omega arith, tt));
  len = omega arith;
}

stale_runs_return_example :
    (m' m'' : ManifestManager) × (checkpoint byte_count stale_manager ≡ ok m')
    × (open_manifest byte_count m'.dir ≡ ok m'')
    × (m'.version ≡ stale_manager.version)
    × (m''.version.runs ≡ run_3 ∷ [])
stale_runs_return_example =
    stale_runs_return byte_count byte_count-u32 stale_manager live_3 refl live_3-fits none_live-fits
