-- ===== src/Market/Amm.antt =====
-- crates/market/src/amm: the fixed-point arithmetic of the pools and the swaps that they make.
pub mod Math
pub mod Clmm
pub mod Dlmm
