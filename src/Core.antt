-- ===== src/Core.antt =====
-- The crate crates/core: integer money, the cost model, the profit guards and the domain model.
pub mod Units
pub mod Time
pub mod Route
pub mod Token
pub mod Layers
pub mod Costs
pub mod Profit
pub mod Model
pub mod Records
pub mod Labels
mod Tests
