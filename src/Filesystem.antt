-- ===== src/Filesystem.antt =====
-- crates/filesystem: the shared codec.
pub mod Codec
pub mod Policies
pub mod Memo
pub mod TuplePage
pub mod Memory
pub mod Loc
pub mod Header
mod Examples
