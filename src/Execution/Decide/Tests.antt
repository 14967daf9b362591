-- ===== src/Execution/Decide/Tests.antt =====
-- The opportunity of the risk tests, decided in live mode on the backend of the live tests.
use mobius_searcher.Base.{◌≡◌, refl, true, some, [], ◌∷◌, ◌⊎◌, arith}
use mobius_searcher.Base.Int.{pos, ◌-ℤ◌, ◌+ℤ◌, div_euclid}
use mobius_searcher.Base.Words.{wrap_i64}
use mobius_searcher.Core.Units.{saturating_add}
use mobius_searcher.Core.Model.{Mode, PlanKind, OppStatus, Opportunity, quote_age_ms}
use mobius_searcher.Risk.{
  roll_day, check_equity, check_slippage, check_simulation, check_wallet, utc_day, evaluate,
  open_execution, close_execution,
}
use mobius_searcher.Risk.Approval.{Safe}
use mobius_searcher.Risk.Samples.{good, engine}
use mobius_searcher.Execution.Live.{execute_live}
use mobius_searcher.Execution.Live.Samples.{World, end, timed}
use mobius_searcher.Execution.Decide.{SimJob, Pipe, context, decide}
use mobius_searcher.Execution.Decide.Samples.{config, around, before}
use mobius_searcher.Execution.Decide.Gate.{Quiet, Allowed, Gated, decide-Gated}
use mobius_searcher.Execution.Decide.Balance.{Through}
use mobius_searcher.Execution.Decide.Ends.{fuel, decide-ends_Through}

abbrev job : SimJob
job = record { opp = good; plan = PlanKind.single_tx; heights = 1_050 ∷ 1_000 ∷ [] }

abbrev after : Pipe World
after = record before {
  run = end;
  shown = OppStatus.landed ∷ OppStatus.submitted ∷ OppStatus.executable ∷ [];
}

abbrev decided : Opportunity
decided = record good {
  status = OppStatus.landed;
  risk =
      some
        (record { opportunity = 7; approved = true; violations = []; checked_at = pos 1_500_000 });
}

decide_lands : decide config around 7 job before ≡ some (after, decided)
unfolding decide evaluate check_equity wrap_i64 roll_day utc_day div_euclid check_slippage
    quote_age_ms ◌-ℤ◌ check_simulation check_wallet execute_live close_execution open_execution
    saturating_add ◌+ℤ◌
decide_lands = refl

decide-Gated_example :
    Quiet end.calls
    ⊎ (Safe engine.limits
          (roll_day engine.state (pos 1_500_000))
          engine.kill
          good
          (context config around before)
        × Allowed config around Mode.live good before
        × Gated config around end.calls)
decide-Gated_example = decide-Gated config around 7 job before after decided refl decide_lands

decide-ends_Through_example :
    (x : Pipe World × Opportunity) × (decide config around
        (fuel config around timed (omega arith))
        job
        before
      ≡ some x)
    × Through config around engine x
decide-ends_Through_example =
    decide-ends_Through config around timed (omega arith) job before (omega arith)
