-- ===== src/Strategy/Pricing/Tests.antt =====
-- A round trip of one SOL through a second mint, priced and priced again.
use mobius_searcher.Base.{ℕ, ◌≤◌, ◌<◌, ◌≡◌, refl, true, false, some, none, [], ◌∷◌, ◌⊎◌, arith}
use mobius_searcher.Base.Int.{pos, ◌-ℤ◌, ◌*ℤ◌, div_euclid, quot}
use mobius_searcher.Base.Words.{wrap_i64}
use mobius_searcher.Core.Costs.{CostBreakdown, CostSource, last_leg, total, compute_costs, bundle}
use mobius_searcher.Core.Profit.{evaluate, check_guards, chosen_usd}
use mobius_searcher.Core.Model.{OppStatus, Opportunity}
use mobius_searcher.Core.Units.{ratio, value, priority_fee_lamports, cu_limit_with_margin}
use mobius_searcher.Base.Decimal.{decimal}
use mobius_searcher.Core.Route.{is_closed_cycle}
use mobius_searcher.Strategy.Strategies.{AnyStrategy, round_trip, round_trip_plan, mode, next_plan}
use mobius_searcher.Strategy.Strategies.Cycles.{quoted-is_closed}
use mobius_searcher.Strategy.Pricing.{
  TipInfo, PricingInput, validate_chain, costs_for, priced_status, quote_status, quoted_opportunity,
  price, repriced, reprice_after_simulation, protective_slippage_bps,
}
use mobius_searcher.Strategy.Pricing.Samples.{sol, usdc, plan, legs, env}
use mobius_searcher.Strategy.Pricing.Chain.{Carries, EndsIn, validate_chain-Carries}
use mobius_searcher.Strategy.Pricing.Slippage.{Tightest, protective_slippage-Tightest}
use mobius_searcher.Strategy.Pricing.Quoted.{Sound, price-Sound, StillSound, reprice-StillSound}

abbrev asked : PricingInput
asked = record {
  id = 7;
  plan = plan;
  legs = legs;
  now = pos 1_000_500;
  slot = some 10;
  sol_price = none;
  base_decimals = 9;
  shape = bundle 1;
  atas_to_create = 0;
}

chain_example : Carries 1_000_000_000 legs plan.legs × EndsIn sol (last_leg legs)
unfolding validate_chain
chain_example = (validate_chain-Carries plan legs).0 refl

protective_slippage_example : protective_slippage_bps 1_002_000_000 1_000_100_000 ≡ some 18
unfolding protective_slippage_bps
protective_slippage_example = refl

Tightest-example :
    ((protective_slippage_bps 1_002_000_000 1_000_100_000 ≡ none)
      × (◌≡◌ {A = ℕ} 1_002_000_000 0 ⊎ (1_002_000_000 < 1_000_100_000)))
    ⊎ ((bps : ℕ) × (protective_slippage_bps 1_002_000_000 1_000_100_000 ≡ some bps)
        × (0 < 1_002_000_000)
        × (1_000_100_000 ≤ 1_002_000_000)
        × Tightest 1_002_000_000 1_000_100_000 bps)
Tightest-example = protective_slippage-Tightest 1_002_000_000 1_000_100_000

abbrev costs : CostBreakdown
costs = record {
  source = CostSource.quote;
  tx_count = 1;
  signatures = 1;
  base_fee = 5_000;
  compute_units_limit = 300_000;
  compute_units_used = none;
  compute_unit_price_micro = 0;
  priority_fee = 0;
  jito_tip = 10_000;
  ata_rent = 0;
  atas_created = 0;
  expected_slippage = 300_000;
  safety_buffer = 51_000;
  platform_fee = 0;
  swap_fees_embedded = true;
}

abbrev tip : TipInfo
tip = record { lamports = 10_000; capped = false }

abbrev quoted : Opportunity
quoted = quoted_opportunity asked env tip costs

price_of_asked : price asked env ≡ some quoted
unfolding price costs_for compute_costs priority_fee_lamports
price_of_asked = refl

status_of_quoted : quoted.status ≡ OppStatus.quoted
unfolding quoted_opportunity quote_status priced_status validate_chain check_guards evaluate total
    chosen_usd ratio value div_euclid quot ◌-ℤ◌ ◌*ℤ◌ wrap_i64
status_of_quoted = refl

price-Sound_example : Sound asked env quoted
price-Sound_example = price-Sound asked env quoted (omega arith) price_of_asked status_of_quoted

abbrev measured : CostBreakdown
measured = record costs {
  source = CostSource.simulated;
  compute_units_limit = 198_000;
  compute_units_used = some 180_000;
}

abbrev still : Opportunity
still = repriced quoted env tip measured (some (pos 1_985_000)) 9 (pos 1_000_900)

reprice_of_quoted :
    reprice_after_simulation quoted
      (bundle 1)
      (180_000 ∷ [])
      (some (pos 1_985_000))
      none
      0
      env
      9
      (pos 1_000_900)
    ≡ some still
unfolding reprice_after_simulation quoted_opportunity costs_for compute_costs priority_fee_lamports
    cu_limit_with_margin
reprice_of_quoted = refl

status_of_still : still.status ≡ OppStatus.quoted
unfolding repriced quoted_opportunity priced_status check_guards evaluate total chosen_usd ratio
    value div_euclid quot ◌-ℤ◌ ◌*ℤ◌ wrap_i64
status_of_still = refl

reprice-StillSound_example : StillSound quoted (180_000 ∷ []) (some (pos 1_985_000)) env still
reprice-StillSound_example =
    reprice-StillSound quoted (bundle 1) (180_000 ∷ []) (some (pos 1_985_000)) none 0 env 9
      (pos 1_000_900) still (omega arith) reprice_of_quoted status_of_still

abbrev trips : AnyStrategy
trips = round_trip (record {
  base = record { symbol = "SOL"; mint = sol; decimals = 9; usd_stable = false };
  quote = record { symbol = "USDC"; mint = usdc; decimals = 6; usd_stable = true };
  amount = 1_000_000_000;
  weight = 1;
  fast = "SOL/USDC" ∷ [];
  max_accounts = none;
})

plan_of_trips : (next_plan trips).1 ≡ some plan
unfolding next_plan round_trip_plan mode decimal
plan_of_trips = refl

quoted-is_closed_example : is_closed_cycle quoted.route ≡ true
quoted-is_closed_example =
    quoted-is_closed trips asked env quoted (omega arith) plan_of_trips price_of_asked
      status_of_quoted
