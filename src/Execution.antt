-- ===== src/Execution.antt =====
-- The crate crates/execution: sending, once everything was checked.
pub mod Live
pub mod Decide
pub mod Simulate
pub mod Examine
pub mod Prepare
pub mod View
