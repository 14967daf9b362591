-- ===== src/Storage.antt =====
-- The crate crates/storage: what is kept of the recordings, and for how long.
pub mod Retention
