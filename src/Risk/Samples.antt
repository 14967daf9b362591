-- ===== src/Risk/Samples.antt =====
-- A good opportunity, and limits that it respects, for the tests about crates/risk/src/lib.rs.
use mobius_searcher.Base.{true, false, some, none, [], ◌∷◌}
use mobius_searcher.Base.Int.{pos}
use mobius_searcher.Core.Route.{Leg, RoutingMode, DexFilter, SlippageSpec}
use mobius_searcher.Core.Costs.{CostSource}
use mobius_searcher.Core.Model.{
  Mode, StrategyKind, OppStatus, PlanKind, SimFidelity, SimulationResult, Opportunity,
}
use mobius_searcher.Risk.{RiskLimits, RiskContext, RiskEngine, new}

abbrev pub leg : Leg
leg = record {
  index = 0;
  input_mint = 1 ∷ [];
  output_mint = 1 ∷ [];
  in_amount = 1_000_000_000;
  out_amount = 1_002_000_000;
  min_out = 1_001_000_000;
  slippage_bps = 10;
  slippage_spec = SlippageSpec.rtse;
  price_impact = pos 10;
  hops = [];
  mode = RoutingMode.fast;
  dex_filter = DexFilter.any;
  quoted_at = pos 1_000_000;
  latency_ms = 40;
  cu_price_micro = none;
  last_valid_block_height = 100;
  request_id = none;
}

abbrev pub simulation : SimulationResult
simulation = record {
  opportunity = 7;
  plan = PlanKind.single_tx;
  fidelity = SimFidelity.exact;
  ok = true;
  failure = none;
  txs = [];
  latency_ms = 90;
  simulated_at = pos 1_200_000;
  context_slot = some 500;
}

abbrev pub good : Opportunity
good = record {
  id = 7;
  key = "sol-sol";
  strategy = StrategyKind.round_trip;
  label = "round trip";
  detected_at = pos 1_000_000;
  slot = some 499;
  base_mint = 1 ∷ [];
  input = 1_000_000_000;
  gross_output = 1_002_000_000;
  route = record { legs = leg ∷ [] };
  costs = record {
    source = CostSource.simulated;
    tx_count = 1;
    signatures = 1;
    base_fee = 5_000;
    compute_units_limit = 198_000;
    compute_units_used = some 180_000;
    compute_unit_price_micro = 1_000_000;
    priority_fee = 198_000;
    jito_tip = 10_000;
    ata_rent = 0;
    atas_created = 0;
    expected_slippage = 300_000;
    safety_buffer = 51_000;
    platform_fee = 0;
    swap_fees_embedded = true;
  };
  eval = record {
    gross_pnl = pos 2_000_000;
    expected_net = pos 1_436_000;
    gross_edge = pos 2_000;
    net_edge = pos 1_436;
    gross_usd = none;
    expected_net_usd = none;
    simulated_net = none;
  };
  status = OppStatus.quoted;
  updated_at = pos 1_200_000;
  sol_price = none;
  simulation = some simulation;
  risk = none;
  guard = none;
}

abbrev pub limits : RiskLimits
limits = record {
  max_trade_lamports = 2_000_000_000;
  max_trade_pct_of_equity_ppm = pos 250_000;
  max_daily_loss = pos 20_000_000;
  max_consecutive_failures = 3;
  max_slippage_bps = 50;
  max_quote_age_ms = 1_500;
  max_simulation_age_ms = 1_000;
  max_priority_fee_lamports = 500_000;
  max_jito_tip_lamports = 100_000;
  min_wallet_sol_for_fees_lamports = 20_000_000;
  max_open_executions = 1;
  max_slot_lag = 8;
}

abbrev pub context : RiskContext
context = record {
  now = pos 1_500_000;
  mode = Mode.live;
  equity_lamports = 10_000_000_000;
  wallet_lamports = some 5_000_000_000;
  sol_price = none;
  latest_slot = some 503;
}

abbrev pub engine : RiskEngine
engine = new limits (record { engaged = false; reason = "" })
