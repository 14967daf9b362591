-- ===== src/Strategy.antt =====
-- The crate crates/strategy: which cycles are tried, which one next, and what it is worth.
pub mod Plan
pub mod Strategies
pub mod Scheduler
pub mod Pricing
