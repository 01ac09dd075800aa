-- ===== src/Lsm.antt =====
-- crates/lsm: the log-structured merge tree.
pub mod Key
pub mod Merge
pub mod Resolve
pub mod Memtable
pub mod Data
pub mod Error
pub mod Manifest
pub mod Journaled
pub mod Overlap
pub mod Table
pub mod Tree
mod Examples
