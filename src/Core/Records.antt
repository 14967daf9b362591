-- ===== src/Core/Records.antt =====
-- The records of crates/core/src/model.rs that the engine hands on: executions, trades, market samples
-- and the state of the services; and the defaults of crates/core/src/costs.rs and profit.rs.
use Prim.Native.String.{String}
use mobius_searcher.Base.{ℕ, Bool, Option, List}
use mobius_searcher.Base.Int.{ℤ, pos, ◌*ℤ◌}
use mobius_searcher.Core.Units.{Ppm, UsdMicros, UsdPrice, token_account_rent_lamports}
use mobius_searcher.Core.Time.{Ts}
use mobius_searcher.Core.Costs.{CostParams}
use mobius_searcher.Core.Profit.{ProfitGuards}
use mobius_searcher.Core.Model.{Mode, StrategyKind, PlanKind}

pub data ExecState : Type 0 where
  paper_filled awaiting_confirm declined submitted pending : ExecState
  landed : ℕ → ExecState
  failed : String → ExecState
  expired : ExecState

pub record ExecutionAttempt : Type 0 where
  pub opportunity : ℕ
  pub mode : Mode
  pub plan : PlanKind
  pub state : ExecState
  pub bundle_id : Option String
  pub signatures : List String
  pub tip_lamports : ℕ
  pub created_at : Ts
  pub updated_at : Ts
  pub latency_ms : Option ℕ

pub record TradeResult : Type 0 where
  pub opportunity : ℕ
  pub strategy : StrategyKind
  pub label : String
  pub mode : Mode
  pub paper : Bool
  pub entry_ts : Ts
  pub exit_ts : Ts
  pub input : ℕ
  pub output : ℕ
  pub fees_lamports : ℕ
  pub tip_lamports : ℕ
  pub expected_net : ℤ
  pub net : ℤ
  pub net_usd : Option UsdMicros

pub data SampleSide : Type 0 where
  sell buy reference mid oracle : SampleSide

pub record MarketSample : Type 0 where
  pub ts : Ts
  pub pair : String
  pub price : UsdPrice
  pub side : SampleSide
  pub source : String
  pub size_atoms : ℕ

pub data ServiceId : Type 0 where
  jupiter rpc web_socket jito db market_feed : ServiceId

pub data ServiceState : Type 0 where
  idle ok degraded rate_limited down disabled : ServiceState

pub record ServiceSnapshot : Type 0 where
  pub service : Option ServiceId
  pub state : ServiceState
  pub last_latency_ms : Option ℕ
  pub p50_latency_ms : Option ℕ
  pub requests : ℕ
  pub errors : ℕ
  pub rate_limited : ℕ
  pub error_rate : Ppm
  pub backoff_until : Option Ts
  pub last_success : Option Ts
  pub last_error : Option String
  pub quota_remaining : Option ℤ
  pub recent_latency : List ℕ

-- `Ppm::from_bps`
abbrev pub from_bps : ℤ → Ppm
from_bps bps = bps *ℤ pos 100

-- `CostParams::default`
abbrev pub default_params : CostParams
default_params = record {
  cu_margin = pos 200_000;
  est_cu_per_leg = 300_000;
  max_cu_price_micro = 200_000;
  expected_slippage_share = pos 250_000;
  safety_buffer_lamports = 5_000;
  safety_buffer = from_bps (pos 1);
  token_account_rent = token_account_rent_lamports;
  max_new_deposit = 3_000_000;
}

-- `ProfitGuards::default`
abbrev pub default_guards : ProfitGuards
default_guards = record {
  min_profit_lamports = pos 10_000;
  min_profit_edge = from_bps (pos 5);
  min_profit_usd = pos 10_000;
}
