-- ===== src/Jito.antt =====
-- The crate crates/jito: the tip that a bundle offers.
pub mod Tip
pub mod Permit
