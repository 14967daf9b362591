-- ===== src/Core/Tests.antt =====
-- Runs of the money arithmetic, of the cost model and of the profit guards.
use mobius_searcher.Base.{
  ℕ, ◌+◌, ◌*◌, ◌^◌, ◌≤◌, ◌<◌, ◌≡◌, ◌↔◌, ◌⊎◌, refl, true, some, none, [], ◌∷◌, arith,
}
use mobius_searcher.Base.Int.{pos, negsuc, ◌-ℤ◌, ◌*ℤ◌, ◌≤ℤ◌, ◌<ℤ◌, div_euclid, IsFloor, quot}
use mobius_searcher.Base.Words.{u8_max, u64_max, saturate, InI64, wrap_i64}
use mobius_searcher.Core.Units.{
  ratio, value, from_trade, of, UsdPrice, priority_fee_lamports, cu_limit_with_margin,
  micro_lamports_per_lamport, max_compute_units_per_tx, ppm_one, base_fee_lamports_per_signature,
}
use mobius_searcher.Core.Units.Rounding.{
  ratio-IsFloor, priority_fee-ceil, cu_limit-covers, value-IsFloor, from_trade-floor, of-IsFloor,
}
use mobius_searcher.Core.Route.{Leg, RoutingMode, DexFilter, SlippageSpec}
use mobius_searcher.Core.Costs.{
  CostSource, CostBreakdown, CostInputs, CostParams, bundle, total, landing_cost, expected_slippage,
  compute_costs,
}
use mobius_searcher.Core.Costs.Laws.{
  exact_total, total-exact, expected_slippage-bounds, compute_costs-covers,
}
use mobius_searcher.Core.Profit.{
  ProfitGuards, GuardResult, evaluate, check_guards, chosen_usd, net_of,
}
use mobius_searcher.Core.Profit.Guards.{
  Passes, check_guards-Passes, accepted_profit, accepted_edge, Repays,
}

ratio_of_thirds :
    (pos 0 <ℤ pos 3) × IsFloor (negsuc 333_333) (negsuc 0 *ℤ pos ppm_one) 3 × InI64 (negsuc 333_333)
unfolding ratio div_euclid ◌*ℤ◌
ratio_of_thirds = ratio-IsFloor (negsuc 0) (pos 3) (negsuc 333_333) refl

fee_of_limit :
    let fee = priority_fee_lamports 1_400_000 33 in
    (fee ≤ u64_max)
    × (fee * micro_lamports_per_lamport < 1_400_000 * 33 + micro_lamports_per_lamport)
    × ((fee ≡ u64_max) ⊎ (1_400_000 * 33 ≤ fee * micro_lamports_per_lamport))
fee_of_limit = priority_fee-ceil 1_400_000 33

limit_of_units :
    (limit : ℕ) × (cu_limit_with_margin 1_300_000 (pos 100_000) ≡ some limit)
    × (1_300_000 ≤ limit)
    × (limit ≤ max_compute_units_per_tx)
    × ((1_300_000 * (ppm_one + 100_000) ≤ limit * ppm_one) ⊎ (limit ≡ max_compute_units_per_tx))
limit_of_units = cu_limit-covers 1_300_000 (pos 100_000) (omega arith)

of-IsFloor_example : IsFloor (of (negsuc 1_499) 333) (pos 333 *ℤ negsuc 1_499) ppm_one
of-IsFloor_example = of-IsFloor (negsuc 1_499) 333

abbrev sol_price : UsdPrice
sol_price = record { micros_per_token = 150_000_000 }

value_of_debt : IsFloor (negsuc 0) (negsuc 0 *ℤ pos 150_000_000) (10 ^ 9) × InI64 (negsuc 0)
unfolding value div_euclid ◌*ℤ◌
value_of_debt = value-IsFloor sol_price (negsuc 0) 9 (negsuc 0) refl

trade_of_sol :
    (0 < 1_000_000_000)
    × ((sol_price.micros_per_token * (1_000_000_000 * 10 ^ 6) ≤ 150_000_000 * 1_000_000 * 10 ^ 9)
        × (150_000_000 * 1_000_000 * 10 ^ 9
            < (sol_price.micros_per_token + 1) * (1_000_000_000 * 10 ^ 6)))
unfolding from_trade
trade_of_sol = from_trade-floor 1_000_000_000 9 150_000_000 6 sol_price refl

abbrev leg : Leg
leg = record {
  index = 0;
  input_mint = 1 ∷ [];
  output_mint = 2 ∷ [];
  in_amount = 1_000_000_000;
  out_amount = 150_000_000;
  min_out = 149_250_000;
  slippage_bps = 50;
  slippage_spec = SlippageSpec.rtse;
  price_impact = pos 10;
  hops = [];
  mode = RoutingMode.fast;
  dex_filter = DexFilter.any;
  quoted_at = pos 1_000_000;
  latency_ms = 40;
  cu_price_micro = none;
  last_valid_block_height = 100;
  request_id = none;
}

abbrev params : CostParams
params = record {
  cu_margin = pos 100_000;
  est_cu_per_leg = 150_000;
  max_cu_price_micro = 1_000_000;
  expected_slippage_share = pos 300_000;
  safety_buffer_lamports = 1_000;
  safety_buffer = pos 50;
  token_account_rent = 1_488_440;
  max_new_deposit = 5_000_000;
}

abbrev inputs : CostInputs
inputs = record {
  legs = leg ∷ [];
  input = 1_000_000_000;
  shape = bundle 1;
  cu_used = some (180_000 ∷ []);
  cu_price_micro = 2_000_000;
  jito_tip = 10_000;
  atas_to_create = 0;
  platform_fee = 0;
}

abbrev costs : CostBreakdown
costs = record {
  source = CostSource.simulated;
  tx_count = 1;
  signatures = 1;
  base_fee = 5_000;
  compute_units_limit = 198_000;
  compute_units_used = some 180_000;
  compute_unit_price_micro = 1_000_000;
  priority_fee = 198_000;
  jito_tip = 10_000;
  ata_rent = 0;
  atas_created = 0;
  expected_slippage = 225_000;
  safety_buffer = 51_000;
  platform_fee = 0;
  swap_fees_embedded = true;
}

costs_of_inputs : compute_costs inputs params ≡ some costs
unfolding compute_costs cu_limit_with_margin priority_fee_lamports
costs_of_inputs = refl

total_of_costs :
    (total costs ≡ saturate u64_max (exact_total costs)) × (landing_cost costs ≤ total costs)
total_of_costs = total-exact costs

slippage_of_leg :
    (expected_slippage (leg ∷ []) (pos 300_000) ≤ 750_000)
    × (750_000 * 300_000 ≤ expected_slippage (leg ∷ []) (pos 300_000) * ppm_one)
slippage_of_leg = expected_slippage-bounds (leg ∷ []) (pos 300_000) leg refl

covered_consumption :
    (c : CostBreakdown) × (used : ℕ) × (compute_costs inputs params ≡ some c)
    × (c.source ≡ CostSource.simulated)
    × (c.compute_units_used ≡ some used)
    × (used ≤ c.compute_units_limit)
    × (c.compute_unit_price_micro ≤ 1_000_000)
    × (c.base_fee ≤ base_fee_lamports_per_signature * u8_max)
covered_consumption = compute_costs-covers inputs params 180_000 [] refl (omega arith, tt)

abbrev guards : ProfitGuards
guards = record {
  min_profit_lamports = pos 5_000;
  min_profit_edge = pos 500;
  min_profit_usd = pos 1_000;
}

check_guards-Passes_example :
    (check_guards
        (evaluate 1_000_000_000 1_002_000_000 costs 9 (some sol_price))
        1_000_000_000
        guards
      ≡ GuardResult.ok)
    ↔ Passes (evaluate 1_000_000_000 1_002_000_000 costs 9 (some sol_price)) 1_000_000_000 guards
check_guards-Passes_example =
    check_guards-Passes (evaluate 1_000_000_000 1_002_000_000 costs 9 (some sol_price))
      1_000_000_000 guards

accepts :
    check_guards
      (evaluate 1_000_000_000 1_002_000_000 costs 9 (some sol_price))
      1_000_000_000
      guards
    ≡ GuardResult.ok
unfolding check_guards evaluate total chosen_usd ratio value div_euclid quot ◌-ℤ◌ ◌*ℤ◌ wrap_i64
accepts = refl

accepted_profit_example : Repays 1_000_000_000 costs (pos 5_000) 1_002_000_000
accepted_profit_example =
    accepted_profit 1_000_000_000 1_002_000_000 9 costs (some sol_price) guards (omega arith)
      accepts

edge_of_cycle :
    pos 500 *ℤ pos 1_000_000_000 ≤ℤ net_of 1_000_000_000 1_002_000_000 costs *ℤ pos ppm_one
edge_of_cycle =
    accepted_edge 1_000_000_000 1_002_000_000 9 costs (some sol_price) guards (omega arith)
      (omega arith) accepts
