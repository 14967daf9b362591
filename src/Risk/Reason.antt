-- ===== src/Risk/Reason.antt =====
-- The reason that a decision of `RiskEngine::evaluate` gives, crates/risk/src/lib.rs and
-- crates/core/src/model.rs.
use mobius_searcher.Base.{◌≡◌, ◌↔◌, refl, true, none, List, [], ◌∷◌, arith}
use mobius_searcher.Core.Model.{RiskViolation, RiskDecision, Opportunity, primary_skip}
use mobius_searcher.Risk.{RiskContext, RiskEngine, is_empty, roll_day, evaluate, decide}
use mobius_searcher.Risk.Approval.{Safe, evaluate-Safe}

decision_reason :
    (d : RiskDecision) (v : List RiskViolation)
    → d.violations ≡ v
    → (is_empty v ≡ true) ↔ (primary_skip d ≡ none)
unfolding primary_skip
decision_reason d [] e = (λ h. rw (e, primary_skip) refl, λ h. refl)
decision_reason d (v ∷ vs) e =
    (λ h. absurd (ground arith), λ h. let k = rw (e, primary_skip) at h in absurd (ground arith))

-- A decision names no reason to skip the opportunity exactly when every limit is respected.
pub evaluate-reason :
    (e : RiskEngine) (o : Opportunity) (ctx : RiskContext)
    → (primary_skip (evaluate e o ctx).1 ≡ none)
      ↔ Safe e.limits (roll_day e.state ctx.now) e.kill o ctx
unfolding evaluate decide
evaluate-reason e o ctx =
    let r = decision_reason (evaluate e o ctx).1 _ refl in
    let a = evaluate-Safe e o ctx in (λ h. a.0 (r.1 h), λ s. r.0 (a.1 s))
