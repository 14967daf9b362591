-- ===== src/Risk/Tests.antt =====
-- Runs of the risk engine on a good opportunity.
use mobius_searcher.Base.{◌≡◌, ◌↔◌, refl, true, false, some, none, List, [], ◌∷◌, arith}
use mobius_searcher.Base.Int.{pos, div_euclid, ◌-ℤ◌}
use mobius_searcher.Base.Words.{wrap_i64}
use mobius_searcher.Core.Route.{oldest_quote}
use mobius_searcher.Core.Time.{age_ms}
use mobius_searcher.Core.Model.{SkipReason, primary_skip, quote_age_ms}
use mobius_searcher.Risk.{
  evaluate, roll_day, checks, check_equity, check_slippage, check_simulation, check_wallet, utc_day,
  open_execution, close_execution,
}
use mobius_searcher.Risk.Reason.{evaluate-reason}
use mobius_searcher.Risk.Approval.{Safe, evaluate-Safe}
use mobius_searcher.Risk.History.{Call, step, run, engaged_refuses, failing_refuses}
use mobius_searcher.Risk.Samples.{good, limits, context, engine}

approved : (evaluate engine good context).1.approved ≡ true
unfolding evaluate checks check_equity check_slippage check_simulation check_wallet quote_age_ms
    oldest_quote age_ms wrap_i64 roll_day utc_day div_euclid ◌-ℤ◌
approved = refl

evaluate-Safe_example :
    ((evaluate engine good context).1.approved ≡ true)
    ↔ Safe engine.limits (roll_day engine.state context.now) engine.kill good context
evaluate-Safe_example = evaluate-Safe engine good context

abbrev later : List Call
later = Call.limits limits ∷ Call.opens ∷ Call.closes (pos 2_000_000) true (pos 5) ∷ []

engaged_refuses_example :
    ((evaluate (run (step engine (Call.engages "operator")) later) good context).1.approved ≡ false)
    × (primary_skip (evaluate (run (step engine (Call.engages "operator")) later) good context).1
        ≡ some SkipReason.kill_switch)
engaged_refuses_example = engaged_refuses engine "operator" later good context (tt, (tt, (tt, tt)))

abbrev three_failures : List Call
three_failures =
    Call.opens
    ∷ Call.closes (pos 1_100_000) false (pos 0)
    ∷ Call.closes (pos 1_200_000) false (pos 0)
    ∷ Call.asks good context
    ∷ Call.closes (pos 1_300_000) false (pos 0)
    ∷ []

failing_refuses_example :
    (evaluate
      (run (step engine (Call.closes (pos 1_000_000) true (pos 9))) three_failures)
      good
      context).1.approved
    ≡ false
unfolding run step evaluate open_execution close_execution
failing_refuses_example =
    failing_refuses engine (pos 1_000_000) (pos 9) three_failures good context
      (tt, (refl, (refl, (tt, (refl, tt))))) (omega arith) (omega arith)

evaluate-reason_example :
    (primary_skip (evaluate engine good context).1 ≡ none)
    ↔ Safe engine.limits (roll_day engine.state context.now) engine.kill good context
evaluate-reason_example = evaluate-reason engine good context
