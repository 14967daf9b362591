-- ===== src/Execution/Examine/Tests.antt =====
-- The opportunity of the risk tests, simulated on a node that answers without an error and then
-- decided in live mode.
use Prim.Native.String.{String}
use mobius_searcher.Base.{◌≡◌, ◌↔◌, refl, true, Option, some, [], ◌∷◌, ◌⊎◌, arith}
use mobius_searcher.Base.Int.{pos, ◌-ℤ◌, ◌+ℤ◌, ◌*ℤ◌, div_euclid, quot}
use mobius_searcher.Base.Words.{wrap_i64, wrap_i128}
use mobius_searcher.Core.Units.{
  saturating_add, ratio, value, priority_fee_lamports, cu_limit_with_margin,
}
use mobius_searcher.Core.Costs.{total, compute_costs}
use mobius_searcher.Core.Profit.{evaluate as profit, check_guards, chosen_usd}
use mobius_searcher.Core.Model.{Mode, PlanKind, Opportunity, SimulationResult, quote_age_ms}
use mobius_searcher.Risk.{
  roll_day, check_equity, check_slippage, check_simulation, check_wallet, utc_day, evaluate,
  open_execution, close_execution,
}
use mobius_searcher.Risk.Approval.{Safe}
use mobius_searcher.Risk.Samples.{good, engine}
use mobius_searcher.Jito.Tip.{raw_tip, quote}
use mobius_searcher.Strategy.Pricing.{
  costs_for, priced_status, repriced, reprice_after_simulation, intermediate_drift_value,
}
use mobius_searcher.Execution.Live.{execute_live}
use mobius_searcher.Execution.Live.Samples.{World, start, end}
use mobius_searcher.Execution.Simulate.{
  failure_from, tx_result, tx_sim, jupiter_outputs, created_accounts,
}
use mobius_searcher.Execution.Decide.{Pipe, context, decide}
use mobius_searcher.Execution.Decide.Samples.{config, around, before}
use mobius_searcher.Execution.Decide.Gate.{Quiet, Allowed, Gated}
use mobius_searcher.Execution.Examine.{
  Candidate, Balances, noted, drift_or_worst, delta_of, measured, concluded_by, simulate_txs,
  in_world, simulate_job,
}
use mobius_searcher.Execution.Examine.Samples.{simulator, tx}
use mobius_searcher.Execution.Examine.Simulated.{Clean, simulate_txs-Clean}
use mobius_searcher.Execution.Examine.Examined.{Examined, simulate_job-Gated}

abbrev candidate : Candidate String
candidate = record {
  job = record { opp = good; plan = PlanKind.single_tx; heights = 1_050 ∷ 1_000 ∷ [] };
  txs = tx ∷ [];
  sim_cu_limit = 1_400_000;
  sim_cu_price = 0;
  sim_tip = 10_000;
  atas_to_create = 0;
}

lands :
    (x : Pipe World × Opportunity) × (simulate_job config around simulator 7 candidate before
      ≡ some x)
    × (x.0.run.calls ≡ end.calls)
unfolding simulate_job simulate_txs tx_sim tx_result failure_from jupiter_outputs created_accounts
    measured concluded_by delta_of drift_or_worst reprice_after_simulation repriced costs_for
    priced_status intermediate_drift_value compute_costs total profit check_guards chosen_usd quote
    ratio value priority_fee_lamports cu_limit_with_margin quot wrap_i128 decide evaluate
    check_equity wrap_i64 roll_day utc_day div_euclid check_slippage quote_age_ms noted raw_tip ◌-ℤ◌
    ◌*ℤ◌ check_simulation check_wallet execute_live close_execution open_execution saturating_add
    ◌+ℤ◌
lands = (_, refl, refl)

simulate_job-Gated_example :
    Quiet lands.0.0.run.calls
    ⊎ ((w : World) × (o : Opportunity) × Examined config around simulator candidate before w o
        × Safe engine.limits
            (roll_day engine.state (pos 1_500_000))
            engine.kill
            o
            (context config around (in_world config around simulator w before))
        × Allowed config around Mode.live o (in_world config around simulator w before)
        × Gated config around lands.0.0.run.calls)
simulate_job-Gated_example =
    simulate_job-Gated config around simulator 7 candidate before lands.0.0 lands.0.1
      (λ w. omega arith) refl lands.1

simulates :
    (x : SimulationResult × Option Balances × World) × (simulate_txs config around simulator
        candidate start
      ≡ some (x.0, x.1, x.2))
unfolding simulate_txs noted tx_sim tx_result failure_from jupiter_outputs created_accounts
    cu_limit_with_margin
simulates = (_, refl)

simulate_txs-Clean_example :
    (simulates.0.0.ok ≡ true) ↔ Clean config around simulator candidate.txs start
simulate_txs-Clean_example =
    simulate_txs-Clean config around simulator candidate start simulates.0.2 simulates.0.0
      simulates.0.1 simulates.1
