-- ===== src/Strategy/Plan.antt =====
-- crates/strategy/src/plan.rs: a cycle to evaluate, as requests for its legs.
use Prim.Native.String.{String}
use mobius_searcher.Base.{ℕ, Option, List, length}
use mobius_searcher.Core.Route.{Address, DexFilter, RoutingMode}
use mobius_searcher.Core.Model.{StrategyKind}

pub record LegSpec : Type 0 where
  pub input : Address
  pub output : Address
  pub dex_filter : DexFilter
  pub mode : RoutingMode
  pub max_accounts : Option ℕ

pub record CandidatePlan : Type 0 where
  pub strategy : StrategyKind
  pub key : String
  pub label : String
  pub base_mint : Address
  pub amount : ℕ
  pub legs : List LegSpec

-- `CandidatePlan::requests`
abbrev pub requests : CandidatePlan → ℕ
requests p = length p.legs
