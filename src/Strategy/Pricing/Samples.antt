-- ===== src/Strategy/Pricing/Samples.antt =====
-- A round trip of one SOL through a second mint, for the tests about crates/strategy/src/pricing.rs
-- and crates/execution/src/pipeline.rs.
use mobius_searcher.Base.{ℕ, false, none, List, [], ◌∷◌}
use mobius_searcher.Base.Int.{pos}
use mobius_searcher.Core.Route.{Leg, Address, RoutingMode, DexFilter, SlippageSpec}
use mobius_searcher.Core.Model.{StrategyKind}
use mobius_searcher.Strategy.Plan.{LegSpec, CandidatePlan}
use mobius_searcher.Strategy.Pricing.{PricingEnv}

abbrev pub sol : Address
sol = 1 ∷ []

abbrev pub usdc : Address
usdc = 2 ∷ []

abbrev pub request : Address → Address → LegSpec
request a b = record {
  input = a;
  output = b;
  dex_filter = DexFilter.any;
  mode = RoutingMode.fast;
  max_accounts = none;
}

abbrev pub plan : CandidatePlan
plan = record {
  strategy = StrategyKind.round_trip;
  key = "rt:SOL:USDC:1000000000";
  label = "SOL→USDC→SOL";
  base_mint = sol;
  amount = 1_000_000_000;
  legs = request sol usdc ∷ request usdc sol ∷ [];
}

abbrev pub leg : ℕ → Address → Address → ℕ → ℕ → ℕ → Leg
leg i a b paid got least = record {
  index = i;
  input_mint = a;
  output_mint = b;
  in_amount = paid;
  out_amount = got;
  min_out = least;
  slippage_bps = 50;
  slippage_spec = SlippageSpec.rtse;
  price_impact = pos 10;
  hops = [];
  mode = RoutingMode.fast;
  dex_filter = DexFilter.any;
  quoted_at = pos 1_000_000;
  latency_ms = 40;
  cu_price_micro = none;
  last_valid_block_height = 100;
  request_id = none;
}

abbrev pub legs : List Leg
legs =
    leg 0 sol usdc 1_000_000_000 150_000_000 149_250_000
    ∷ leg 1 usdc sol 150_000_000 1_002_000_000 1_001_000_000
    ∷ []

abbrev pub env : PricingEnv
env = record {
  cost_params = record {
    cu_margin = pos 100_000;
    est_cu_per_leg = 150_000;
    max_cu_price_micro = 1_000_000;
    expected_slippage_share = pos 300_000;
    safety_buffer_lamports = 1_000;
    safety_buffer = pos 50;
    token_account_rent = 1_488_440;
    max_new_deposit = 5_000_000;
  };
  guards = record {
    min_profit_lamports = pos 5_000;
    min_profit_edge = pos 500;
    min_profit_usd = pos 0;
  };
  tip = λ profit. record { lamports = 10_000; capped = false };
}
