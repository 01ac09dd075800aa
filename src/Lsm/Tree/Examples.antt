-- ===== src/Lsm/Tree/Examples.antt =====
-- Tests of crates/lsm/src/lib.rs: a tree that is written, flushed and opened again.
use Prim.Native.Nat.{min}
use strata_db.Prelude.{ℕ, ◌<◌, ◌^◌, ◌≡◌, refl, List, [], ◌∷◌, none, some, length, ok, arith}
use strata_db.Filesystem.Codec.{to_be_bytes, put_bytes}
use strata_db.Lsm.Key.{put}
use strata_db.Lsm.Data.{encode_kv, op_byte, entry_size, encode_block}
use strata_db.Journal.File.{zeros}
use strata_db.Lsm.Manifest.Codec.{encode_op, encode_edit}
use strata_db.Lsm.Resolve.{resolve}
use strata_db.Lsm.Journaled.{put_logged}
use strata_db.Lsm.Journaled.Recovery.{FitsRecord}
use strata_db.Lsm.Journaled.Recovery
use strata_db.Lsm.Memtable.{put_entry, insert_entry, with_capacity, scan_at, range, keep}
use strata_db.Lsm.Table.Header.{
  put_meta, put_metas, encode_bloom, encode_index, encode_role, encode_header,
}
use strata_db.Lsm.Table.Bloom.{insert_all, build_bloom}
use strata_db.Lsm.Table.Write.{
  data_section, table_range, put_index, root_header, with_root, write_table,
}
use strata_db.Lsm.Table.Build.{fill, last_key, pad, build_blocks, chunks, last_max, append_shards}
use strata_db.Lsm.Manifest.Manager
use strata_db.Lsm.Table.Examples.{length_filter, length_filter-FindsInserted}
use strata_db.Lsm.Tree.{Lsm, LsmConfig, default_table, write, flush, seal, get, open_lsm}
use strata_db.Lsm.Tree.Reach.{Contents, updated, record_of, Flushable, Reach}
use strata_db.Journal.Log.Replay.{frame}
use strata_db.Journal.Frame.{write_frame}
use strata_db.Lsm.Manifest.Codec.{edit_codec}
use strata_db.Lsm.Manifest.Manager.Torn.{torn_dir}
use strata_db.Lsm.Tree.Reach.{sealed_file}
use strata_db.Lsm.Tree.Torn.{pending_edit, with_sealed, open_lsm-torn_commit}
use strata_db.Lsm.Tree.Refinement.{fresh_lsm, start_mem, open_lsm-empty, get-Reach, open_lsm-Reach}

abbrev byte_total : List ℕ → ℕ
byte_total p = min (length p) 255

byte_total-u32 : (p : List ℕ) → byte_total p < 2 ^ 32
byte_total-u32 p = omega arith

abbrev one_level : LsmConfig
one_level = default_table ∷ []

abbrev empty_tree : Lsm
empty_tree = fresh_lsm byte_total byte_total-u32 length_filter 64 one_level

empty_tree-Reach : Reach byte_total byte_total-u32 length_filter 64 empty_tree (λ k. none)
empty_tree-Reach =
    Reach.started one_level (omega arith)
      (open_lsm-empty byte_total byte_total-u32 length_filter 64 one_level)

abbrev written : Lsm
written = (write byte_total length_filter put (1 ∷ []) (7 ∷ []) empty_tree).1

one_to_seven : Contents
one_to_seven = updated (1 ∷ []) (resolve put (7 ∷ [])) (λ k. none)

record_of-fits : FitsRecord (record_of put (1 ∷ []) (7 ∷ []) 1)
unfolding record_of encode_kv put_bytes to_be_bytes op_byte
record_of-fits = record {
  entry = record { key_len = omega arith; seq = omega arith; value_len = omega arith };
  len = omega arith;
}

written-Reach : Reach byte_total byte_total-u32 length_filter 64 written one_to_seven
unfolding one_to_seven fresh_lsm write put_logged put_entry insert_entry with_capacity
    Recovery.start start_mem
written-Reach = Reach.wrote put (1 ∷ []) (7 ∷ []) empty_tree-Reach (omega arith) record_of-fits refl

written-Flushable : Flushable byte_total byte_total-u32 length_filter 64 written
unfolding fresh_lsm start_mem write record_of put_logged put_entry insert_entry with_capacity
    Recovery.start Manager.Recovery.start encode_edit encode_op write_table data_section
    build_blocks fill last_key pad encode_block encode_kv op_byte entry_size zeros table_range
    last_max put_index chunks append_shards root_header with_root encode_header encode_role
    put_metas put_meta encode_bloom encode_index build_bloom insert_all to_be_bytes put_bytes
written-Flushable = record {
  table = record {
    id = omega arith;
    count = omega arith;
    each = (record_of-fits.entry, tt);
    size = omega arith;
    filter = record { hashes = omega arith; count = omega arith; words = (omega arith, tt) };
  };
  next = omega arith;
  edit = record {
    count = omega arith;
    ops = (
      record {
        level = omega arith;
        run = omega arith;
        count = omega arith;
        files = (omega arith, tt);
      },
      (omega arith, (omega arith, tt)),
    );
    len = omega arith;
  };
}

abbrev sealed : Lsm
sealed = seal byte_total length_filter written.mem.inner.store written

sealed-Reach : Reach byte_total byte_total-u32 length_filter 64 sealed one_to_seven
unfolding fresh_lsm start_mem write put_logged put_entry insert_entry with_capacity Recovery.start
    flush scan_at range keep
sealed-Reach = Reach.flushed written-Reach written-Flushable refl

get-Reach_example : get byte_total length_filter (1 ∷ []) sealed ≡ some (ok (one_to_seven (1 ∷ [])))
get-Reach_example =
    get-Reach byte_total byte_total-u32 length_filter 64 length_filter-FindsInserted sealed
      one_to_seven (1 ∷ []) sealed-Reach

open_lsm-Reach_example :
    (s' : Lsm) × (open_lsm byte_total length_filter sealed.config sealed.tables
        (0 ∷ 3 ∷ [])
        sealed.manifest.dir
        sealed.mem.journal.file.bytes
        64
      ≡ some (ok s'))
    × (s'.mem ≡ sealed.mem)
    × (s'.manifest ≡ sealed.manifest)
    × (s'.seq ≡ sealed.seq)
    × ((key : List ℕ) → get byte_total length_filter key s' ≡ some (ok (one_to_seven key)))
open_lsm-Reach_example =
    open_lsm-Reach byte_total byte_total-u32 length_filter 64 length_filter-FindsInserted sealed
      one_to_seven (0 ∷ 3 ∷ []) sealed-Reach

five_bytes-torn :
    5
    < length (
        frame byte_total edit_codec
          (pending_edit byte_total byte_total-u32 length_filter 64 written))
unfolding write_frame encode_edit encode_op to_be_bytes fresh_lsm start_mem write put_logged
    put_entry insert_entry with_capacity Recovery.start Manager.Recovery.start
five_bytes-torn = omega arith

open_lsm-torn_commit_example :
    (s' : Lsm) × (open_lsm byte_total length_filter written.config
        (with_sealed byte_total byte_total-u32 length_filter 64 written).tables
        (0 ∷ [])
        (torn_dir byte_total byte_total-u32
          (pending_edit byte_total byte_total-u32 length_filter 64 written)
          5
          written.manifest)
        written.mem.journal.file.bytes
        64
      ≡ some (ok s'))
    × ((key : List ℕ) → get byte_total length_filter key s' ≡ some (ok (one_to_seven key)))
    × (s'.tables written.manifest.version.next_sst_id
        ≡ some (sealed_file byte_total byte_total-u32 length_filter 64 written))
open_lsm-torn_commit_example =
    open_lsm-torn_commit byte_total byte_total-u32 length_filter 64 length_filter-FindsInserted
      written one_to_seven (0 ∷ []) 5 written-Reach written-Flushable five_bytes-torn
