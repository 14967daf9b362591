-- ===== src/Core/Token.antt =====
-- crates/core/src/token.rs: a token of the registry.
use Prim.Native.String.{String}
use mobius_searcher.Base.{ℕ, Bool}
use mobius_searcher.Core.Route.{Address}

pub record Token : Type 0 where
  pub symbol : String
  pub mint : Address
  pub decimals : ℕ
  pub usd_stable : Bool
