-- ===== src/Database.antt =====
-- crates/strata-db: the codecs of column values and keys.
pub mod Scalar
pub mod Text
pub mod Row
pub mod Interval
mod Examples
