-- ===== src/Jito/Permit.antt =====
-- crates/jito/src/client.rs: the permission to send, and what the block engine says of a bundle.
use mobius_searcher.Base.{ℕ, Bool, ◌&&◌, Option, none, some, if◌then◌else◌}
use mobius_searcher.Core.Model.{Mode, sends_transactions}

-- The field of `SendPermit` is private to its module: `check` is the one way to a permit.
pub data SendPermit : Type 0 where
  granted : SendPermit

-- `SendPermit::check`
unfoldable pub check : Mode → Bool → Option SendPermit
check mode live_enabled = if sends_transactions mode && live_enabled then some granted else none

pub data InflightStatus : Type 0 where
  invalid pending failed : InflightStatus
  landed : ℕ → InflightStatus
