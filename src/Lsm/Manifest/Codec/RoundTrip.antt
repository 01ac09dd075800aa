-- ===== src/Lsm/Manifest/Codec/RoundTrip.antt =====
-- Edits are read back from the manifest as they were committed.
use native.Mathlib.Nat.{mod-eq_of_lt}
use strata_db.Prelude.{ℕ, ◌%◌, ◌^◌, ◌<◌, ◌≡◌, [], ◌++◌, append-nil, length, All, ok, arith}
use strata_db.Prelude.Reads.{Reads, Reads-bind, Reads-map, repeat, repeat-Reads, concat_map}
use strata_db.Filesystem.Codec.{be_u8, be_u32, be_u64, to_be_bytes}
use strata_db.Filesystem.Codec.RoundTrip.{read_be-Reads}
use strata_db.Journal.Log.{decode_failed}
use strata_db.Lsm.Manifest.{
  RunDescriptor, ManifestOp, ManifestEdit, add_run, remove_run, set_next_sst_id, set_last_seq,
}
use strata_db.Lsm.Manifest.Codec.{
  encode_op, encode_edit, get_u8, get_u32, get_u64, decode_run, decode_op, decode_ops, decode_edit,
}

-- The numbers are a `u32` and `u64`s, and the files can be counted by a `u32`.
pub record FitsRun (r : RunDescriptor) : Type 0 where
  pub level : r.level < 2 ^ 32
  pub run : r.run < 2 ^ 64
  pub count : length r.files < 2 ^ 32
  pub files : All (λ f. f < 2 ^ 64) r.files

abbrev pub FitsOp : ManifestOp → Type 0
FitsOp (add_run r) = FitsRun r
FitsOp (remove_run id) = id < 2 ^ 64
FitsOp (set_next_sst_id next) = next < 2 ^ 64
FitsOp (set_last_seq seq) = seq < 2 ^ 64

tag-Reads : (tag : ℕ) → tag < 256 → Reads get_u8 (be_u8 tag) tag
unfolding to_be_bytes
tag-Reads tag h = rw (mod-eq_of_lt h) at (read_be-Reads decode_failed 1 tag h)

u32-Reads : (v : ℕ) → v < 2 ^ 32 → Reads get_u32 (be_u32 v) v
u32-Reads v h = read_be-Reads decode_failed 4 v h

u64-Reads : (v : ℕ) → v < 2 ^ 64 → Reads get_u64 (be_u64 v) v
u64-Reads v h = read_be-Reads decode_failed 8 v h

decode_run-Reads :
    (r : RunDescriptor)
    → FitsRun r
    → Reads decode_run
        (be_u32 r.level
          ++ (be_u64 r.run ++ (be_u32 (length r.files % 2 ^ 32) ++ concat_map be_u64 r.files)))
        r
unfolding decode_run
decode_run-Reads r fits = rw (mod-eq_of_lt fits.count) (
    Reads-bind get_u32 _ (u32-Reads r.level fits.level) (
      Reads-bind get_u64 _ (u64-Reads r.run fits.run) (
        Reads-bind get_u32 _ (u32-Reads (length r.files) fits.count) (
          Reads-map (repeat (length r.files) get_u64) _
            (repeat-Reads get_u64 be_u64 (λ f. f < 2 ^ 64) u64-Reads r.files fits.files)))))

pub decode_op-encode_op : (op : ManifestOp) → FitsOp op → Reads decode_op (encode_op op) op
unfolding decode_op encode_op
decode_op-encode_op (add_run r) fits =
    Reads-bind get_u8 _ (tag-Reads 1 (omega arith))
      (Reads-map decode_run add_run (decode_run-Reads r fits))
decode_op-encode_op (remove_run id) fits =
    Reads-bind get_u8 _ (tag-Reads 2 (omega arith))
      (Reads-map get_u64 remove_run (u64-Reads id fits))
decode_op-encode_op (set_next_sst_id next) fits =
    Reads-bind get_u8 _ (tag-Reads 3 (omega arith))
      (Reads-map get_u64 set_next_sst_id (u64-Reads next fits))
decode_op-encode_op (set_last_seq seq) fits =
    Reads-bind get_u8 _ (tag-Reads 4 (omega arith))
      (Reads-map get_u64 set_last_seq (u64-Reads seq fits))

-- An edit whose number of operations and whose operations fit their fields decodes to what was
-- encoded.
pub decode_edit-encode_edit :
    (edit : ManifestEdit)
    → length edit < 2 ^ 32
    → All FitsOp edit
    → decode_edit (encode_edit edit) ≡ ok edit
unfolding decode_edit encode_edit
decode_edit-encode_edit edit short fits =
    rw (← append-nil (be_u32 (length edit % 2 ^ 32) ++ concat_map encode_op edit)) (rw whole)
  where
    whole :
        decode_ops ((be_u32 (length edit % 2 ^ 32) ++ concat_map encode_op edit) ++ [])
        ≡ ok (edit, [])
    whole = rw (mod-eq_of_lt short) (
        (Reads-bind get_u32 (λ count. repeat count decode_op) (u32-Reads (length edit) short)
            (repeat-Reads decode_op encode_op FitsOp decode_op-encode_op edit fits)).at
          [])
