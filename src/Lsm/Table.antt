-- ===== src/Lsm/Table.antt =====
-- crates/lsm/src/storage: the tables on disk.
pub mod Header
pub mod Bloom
pub mod Build
pub mod Write
pub mod Read
pub mod Holds
pub mod Examples
