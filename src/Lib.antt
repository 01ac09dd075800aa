-- ===== src/Lib.antt =====
-- strata-db: a storage engine and database in Rust. This library models the storage core: the
-- journal, the LSM tree with its records, iterators, memtable, manifest and tables, the file system
-- crate's codec, memo cache, eviction policies, memory pool and page header, and the codecs of row
-- keys and of scalar, text and interval values.
--
-- How the parts interact: the memtable (`crates/lsm/src/memstore`) logs each write to a journal
-- (`crates/journal`) before it applies it, and replays the journal on open. The manifest
-- (`crates/lsm/src/manifest`) keeps its edits in journals of its own, one file for each checkpoint,
-- which a pointer file names. Reads merge sorted streams of versions and keep the newest version of
-- each key (`crates/lsm/src/iterator.rs`). The buffer pool asks an eviction policy for a victim
-- (`crates/filesystem/src/cache/policies.rs`).
--
-- The files, and the code they are about:
--   Prelude: the library's names, lists over native numbers, results, comparators, maps.
--   Filesystem/Codec: `crates/filesystem/src/codec.rs`; `get_*` and `put_*` carry the source's names,
--     `split_front` and `take_bytes` are its `take`, a cursor is the list of the bytes that are left.
--   Filesystem/Policies: `crates/filesystem/src/cache/policies.rs`, one module for each policy, with
--     the functions of the `EvictionPolicy` trait; `sweep` is the loop of the clock.
--   Filesystem/Memo: `crates/filesystem/src/cache/memo.rs`. `evict_to_budget` takes fuel, and as many
--     rounds as the policy tracks keys are enough; LruBacked fills the policy's interface with `Lru`.
--   Filesystem/TuplePage: `crates/filesystem/src/tuple/page.rs`. A page is the list of its bytes, and a
--     write is a copy into a range of it; IsPage is the invariant of the slot array and the free space.
--   Filesystem/Memory: `crates/filesystem/src/memory.rs` in a release build, where sums of `usize` wrap;
--     in Budget, threads that share a pool.
--   Filesystem/Header, Filesystem/Loc: `crates/filesystem/src/page/header.rs`, `tuple/loc.rs`.
--   Journal/Frame: `crates/journal/src/frame.rs`; `read_rest` is `read_frame` behind the slice.
--   Journal/File: a file as its bytes and a cursor, with the calls the journal makes.
--   Journal/Log: `crates/journal/src/lib.rs`; `open_journal` is `with_codec` on what is on disk,
--     `replay_from` the iterator `Replay` run to its end.
--   Lsm/Key, Lsm/Error, Lsm/Data: `crates/lsm/src/key.rs`, `error.rs` and `storage/data.rs`.
--   Lsm/Merge, Lsm/Resolve: `crates/lsm/src/iterator.rs` and `resolve` of `lib.rs`.
--   Lsm/Memtable: `crates/lsm/src/memstore/btree.rs`; `put_entry` is `put`.
--   Lsm/Journaled: `crates/lsm/src/memstore/journal.rs` over the trait `MemStore` of `store.rs`.
--   Lsm/Overlap: `overlaps` of `crates/lsm/src/lib.rs`.
--   Lsm/Table: `crates/lsm/src/storage`. Header, Bloom and Build follow `header.rs`, `bloom.rs` and
--     `build` of `sstable.rs`; Write is `SsTable::write`, Read its `open`, `get` and `scan`. A block
--     takes an entry at least, so the number of entries is fuel enough for `build_blocks`. Holds says
--     what it means that a file holds entries.
--   Lsm/Tree: `Lsm` of `crates/lsm/src/lib.rs`: `open_lsm` is `with_memtable`, `seal` the part of
--     `flush` behind its early return. Reach is the relation of the states that calls lead to, and crashes
--     between the steps of a flush; Torn is about one crash within the append of a commit. Layers are the runs
--     on disk as lists of entries.
--   Lsm/Manifest: `crates/lsm/src/manifest`: `mod.rs`, in Codec `codec.rs`, in Manager `manager.rs`.
--   Database/Scalar, Database/Text: `crates/strata-db/src/storage/codec/scalar.rs` and `text.rs`; the
--     `impl`s of one trait for the integer and float types share `encode_bits` and `decode_bits`.
--   Database/Row, Database/Interval: `crates/strata-db/src/storage/row.rs`, `codec/interval.rs`.
-- Tests and applications at concrete inputs stand in the modules named Examples.
--
-- Bounds and fuel: bytes and integers are native numbers, and a `u8`, `u16`, `u32` or `u64` field is
-- written modulo its width, so that round trips ask for values that fit. The replay and the block
-- decoder recurse on the length of their input, since each round takes a byte at least; the merge on
-- the number of items; the clock's sweep on the source's own bound of two rings and a step.
--
-- Not modelled: checksums are a parameter, `crc32` or `crc`, which is assumed only to fit 32 bits;
-- system calls succeed, and `fsync` and `rename` take effect at once, so that a crash is a state of the disk
-- between two calls or within an append, the latter in Journal/Log/Crash and Lsm/Tree/Torn; texts of messages; the clocks of the policies do not wrap.
-- UTF-8 validity and the JSON library are parameters. A `BTreeMap` is the list of its entries in
-- order, and a `HashMap` an association list. The page cache in front of the tables is left out, since a table file is
-- not written again. The merging scan of the tree, the type check and the iterator of a
-- tuple page, the other pages, the heap and the buffer pool of the file system, the SQL layer, the server and the client are not modelled.
pub mod Prelude
pub mod Filesystem
pub mod Journal
pub mod Lsm
pub mod Database
