-- ===== src/Telemetry.antt =====
-- The crate crates/telemetry: what the clients of remote services keep about them.
pub mod Window
pub mod Health
