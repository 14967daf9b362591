-- ===== src/Market.antt =====
-- The market data crate, crates/market: pool prices worked out from the pools' own accounts.
pub mod Amm
