-- ===== src/Execution/Prepare/Tests.antt =====
-- A quoted round trip whose last leg is asked for again with less slippage, and assembled as one
-- transaction.
use Prim.Native.String.{String}
use mobius_searcher.Base.{◌⊎◌, false, ℕ, ◌≡◌, refl, true, some, List, [], ◌∷◌, arith}
use mobius_searcher.Base.Int.{◌-ℤ◌, ◌+ℤ◌, ◌*ℤ◌, div_euclid, quot}
use mobius_searcher.Base.Words.{wrap_i64, wrap_i128}
use mobius_searcher.Core.Units.{ratio, value, priority_fee_lamports}
use mobius_searcher.Core.Route.{Leg}
use mobius_searcher.Core.Costs.{TxShape, bundle, total, compute_costs}
use mobius_searcher.Core.Profit.{evaluate, check_guards, chosen_usd}
use mobius_searcher.Core.Model.{PlanKind, OppStatus, Opportunity}
use mobius_searcher.Jito.Tip.{raw_tip, quote}
use mobius_searcher.Strategy.Pricing.{
  validate_chain, costs_for, priced_status, quote_status, quoted_opportunity, price, to_base,
  intermediate_shortfall_value, required_final_out, protective_slippage_bps,
}
use mobius_searcher.Strategy.Pricing.Samples.{sol, usdc, plan, leg}
use mobius_searcher.Strategy.Pricing.Quoted.{Sound}
use mobius_searcher.Strategy.Pricing.Shortfall.{Modest, shortfall}
use mobius_searcher.Execution.Live.Samples.{World, start}
use mobius_searcher.Execution.Decide.Samples.{config, around}
use mobius_searcher.Execution.Examine.{Candidate, env_at}
use mobius_searcher.Execution.Examine.Samples.{simulator, tx}
use mobius_searcher.Execution.Prepare.{
  Builder, built, assembled, set_last, input_for, price_legs, requoted, tightened, protect,
  reshaped, packed, prepare, finish,
}
use mobius_searcher.Execution.Prepare.Protected.{Backed, finish-Protected}

abbrev legs : List Leg
legs =
    leg 0 sol usdc 1_000_000_000 150_000_000 149_990_000
    ∷ leg 1 usdc sol 150_000_000 1_002_000_000 1_001_000_000
    ∷ []

abbrev builder : Builder World String
builder = record {
  requote =
      λ spec amount bps w. (built (leg 1 usdc sol 150_000_000 1_002_000_000 1_001_900_000), w);
  assemble = λ o ls w. ((assembled PlanKind.single_tx (tx ∷ []), true), w);
}

finishes :
    (o : Opportunity) × (cand : Candidate String) × (w : World) × (finish config around simulator
        builder 7 plan legs start
      ≡ some (o, some cand, w))
    × (o.status ≡ OppStatus.quoted)
unfolding finish price costs_for compute_costs prepare quoted_opportunity quote_status
    validate_chain priced_status check_guards evaluate ◌-ℤ◌ total priority_fee_lamports quote
    raw_tip ◌*ℤ◌ ratio div_euclid quot ◌+ℤ◌ wrap_i128 wrap_i64 chosen_usd value packed protect
    requoted reshaped set_last tightened intermediate_shortfall_value protective_slippage_bps
    required_final_out to_base
finishes = (_, _, _, refl, refl)

legs-Modest : Modest legs
legs-Modest = ((omega arith, (omega arith, tt)), omega arith)

finish-Protected_example :
    (finishes.1.job.opp ≡ finishes.0)
    × ((shape : TxShape) × (n : ℕ) × (atas : ℕ) × (v : World) × Sound
          (input_for config around simulator builder n plan finishes.0.route.legs shape atas v)
          (env_at config around simulator v)
          finishes.0)
    × ((true ≡ false)
        ⊎ ((first : Opportunity) × (price_legs config around simulator builder 7 plan legs
                (bundle 1)
                0
                start
              ≡ some first)
            × Backed first
                (shortfall legs)
                (simulator.thresholds start).guards.min_profit_lamports
                finishes.0.route.legs))
finish-Protected_example =
    finish-Protected config around simulator builder (λ w. omega arith) 7 plan legs start finishes.2
      finishes.0 finishes.1 (omega arith) legs-Modest finishes.3 finishes.4
