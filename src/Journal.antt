-- ===== src/Journal.antt =====
-- crates/journal: the append-only, crash-safe log.
pub mod Frame
pub mod File
pub mod Log
