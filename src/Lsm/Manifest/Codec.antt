-- ===== src/Lsm/Manifest/Codec.antt =====
-- crates/lsm/src/manifest/codec.rs: edits as the payloads of the manifest's journal.
pub mod RoundTrip
use strata_db.Prelude.{
  ℕ, ◌%◌, ◌^◌, List, ◌++◌, length, ◌==◌, if◌then◌else◌, Result, ok, err, and_then, Decoder, ◌>>=◌,
  pure, fail,
}
use strata_db.Prelude.Reads.{repeat, concat_map}
use strata_db.Filesystem.Codec.{be_u8, be_u32, be_u64, read_be}
use strata_db.Journal.Log.{JournalError, decode_failed, Codec}
use strata_db.Lsm.Manifest.{
  RunDescriptor, ManifestOp, ManifestEdit, add_run, remove_run, set_next_sst_id, set_last_seq,
}

abbrev pub op_add_run : ℕ
op_add_run = 1

abbrev pub op_remove_run : ℕ
op_remove_run = 2

abbrev pub op_set_next_sst_id : ℕ
op_set_next_sst_id = 3

abbrev pub op_set_last_seq : ℕ
op_set_last_seq = 4

-- One round of the loop in `encode`.
unfoldable pub encode_op : ManifestOp → List ℕ
encode_op (add_run run) =
    be_u8 op_add_run
    ++ (be_u32 run.level
        ++ (be_u64 run.run ++ (be_u32 (length run.files % 2 ^ 32) ++ concat_map be_u64 run.files)))
encode_op (remove_run id) = be_u8 op_remove_run ++ be_u64 id
encode_op (set_next_sst_id next) = be_u8 op_set_next_sst_id ++ be_u64 next
encode_op (set_last_seq seq) = be_u8 op_set_last_seq ++ be_u64 seq

unfoldable pub encode_edit : ManifestEdit → List ℕ
encode_edit ops = be_u32 (length ops % 2 ^ 32) ++ concat_map encode_op ops

abbrev pub get_u8 : Decoder JournalError (List ℕ) ℕ
get_u8 = read_be decode_failed 1

abbrev pub get_u32 : Decoder JournalError (List ℕ) ℕ
get_u32 = read_be decode_failed 4

abbrev pub get_u64 : Decoder JournalError (List ℕ) ℕ
get_u64 = read_be decode_failed 8

unfoldable pub decode_run : Decoder JournalError (List ℕ) RunDescriptor
decode_run = do
  level ← get_u32
  run ← get_u64
  file_count ← get_u32
  files ← repeat file_count get_u64
  pure (record { level = level; run = run; files = files })

unfoldable pub decode_tagged : ℕ → Decoder JournalError (List ℕ) ManifestOp
unfolding decode_run
decode_tagged tag =
    if tag == op_add_run
    then (do run ← decode_run; pure (add_run run))
    else if tag == op_remove_run
    then (do id ← get_u64; pure (remove_run id))
    else if tag == op_set_next_sst_id
    then (do next ← get_u64; pure (set_next_sst_id next))
    else if tag == op_set_last_seq
    then (do seq ← get_u64; pure (set_last_seq seq))
    else fail decode_failed

unfoldable pub decode_op : Decoder JournalError (List ℕ) ManifestOp
unfolding decode_tagged
decode_op = do tag ← get_u8; decode_tagged tag

unfoldable pub decode_ops : Decoder JournalError (List ℕ) ManifestEdit
unfolding decode_op
decode_ops = do count ← get_u32; repeat count decode_op

-- Bytes behind the last op are not looked at.
unfoldable pub decode_edit : List ℕ → Result JournalError ManifestEdit
unfolding decode_ops
decode_edit bytes = and_then (decode_ops bytes) (λ p. ok p.0)

abbrev pub edit_codec : Codec ManifestEdit
edit_codec = record { encode = encode_edit; decode = decode_edit }
