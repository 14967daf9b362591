-- ===== src/Risk/History.antt =====
-- Histories of calls of the risk engine: the kill switch and the run of failures over any sequence
-- of calls.
use Prim.Native.String.{String}
use mobius_searcher.Base.{
  ℕ, suc, ◌+◌, ◌^◌, ◌≤◌, ◌<◌, ◌≡◌, refl, Bool, true, false, some, List, [], ◌∷◌, ◌++◌, arith, All,
  ap, Bool-cases, inl, inr,
}
use mobius_searcher.Core.Units.{UsdMicros}
use mobius_searcher.Core.Time.{Ts}
use mobius_searcher.Core.Model.{
  Opportunity, RiskDecision, RiskViolation, SkipReason, primary_skip, skip_reason,
}
use mobius_searcher.Risk.Approval.{evaluate-Safe}
use mobius_searcher.Risk.{
  KillSwitch, RiskLimits, RiskState, RiskContext, RiskEngine, engage, release, set_limits, evaluate,
  decide, checks, open_execution, close_execution, closed, roll_day, is_empty, violation_if,
}

-- A call of the engine, or of the kill switch that it shares.
pub data Call : Type 0 where
  asks : Opportunity → RiskContext → Call
  opens : Call
  closes : Ts → Bool → UsdMicros → Call
  limits : RiskLimits → Call
  engages : String → Call
  releases : Call

unfoldable pub step : RiskEngine → Call → RiskEngine
step e (asks o ctx) = (evaluate e o ctx).0
step e opens = open_execution e
step e (closes now success net_usd) = close_execution e now success net_usd
step e (limits l) = set_limits e l
step e (engages reason) = record e { kill = (engage e.kill reason).0 }
step e releases = record e { kill = (release e.kill).0 }

unfoldable pub run : RiskEngine → List Call → RiskEngine
run e [] = e
run e (c ∷ cs) = run (step e c) cs

-- Every call but `release` leaves the kill switch on.
abbrev pub Holds : Call → Type 0
Holds releases = ⊥
Holds _ = Unit

step-engaged :
    (e : RiskEngine) (c : Call) → Holds c → e.kill.engaged ≡ true → (step e c).kill.engaged ≡ true
unfolding step evaluate open_execution close_execution engage
step-engaged e (asks o ctx) h k = k
step-engaged e releases h k = absurd h
step-engaged e opens h k = k
step-engaged e (closes now success net_usd) h k = k
step-engaged e (limits l) h k = k
step-engaged e (engages reason) h k = refl

run-engaged :
    (e : RiskEngine) (cs : List Call)
    → All Holds cs
    → e.kill.engaged ≡ true
    → (run e cs).kill.engaged ≡ true
unfolding run
run-engaged e [] h k = k
run-engaged e (c ∷ cs) h k = run-engaged (step e c) cs h.1 (step-engaged e c h.0 k)

first_violation :
    (b : Bool) (vs : List RiskViolation)
    → b ≡ true
    → violation_if b RiskViolation.kill_switch ++ vs ≡ RiskViolation.kill_switch ∷ vs
first_violation true vs h = refl
first_violation false vs h = cc

primary_skip-cons :
    (d : RiskDecision) (v : RiskViolation) (vs : List RiskViolation)
    → d.violations ≡ v ∷ vs
    → primary_skip d ≡ some (skip_reason v)
unfolding primary_skip
primary_skip-cons d v vs e = rw (e, primary_skip)

killed :
    (l : RiskLimits) (st : RiskState) (kill : KillSwitch) (o : Opportunity) (ctx : RiskContext)
    → kill.engaged ≡ true
    → (primary_skip (decide l st kill o ctx) ≡ some SkipReason.kill_switch)
      × ((decide l st kill o ctx).approved ≡ false)
unfolding decide checks skip_reason
killed l st kill o ctx k =
    let e = first_violation kill.engaged _ k in
    (primary_skip-cons (decide l st kill o ctx) RiskViolation.kill_switch _ e, ap is_empty e)

-- Once engaged, the kill switch refuses every opportunity, and is the reason given, after any
-- calls in any order but its release.
pub engaged_refuses :
    (e : RiskEngine) (reason : String) (cs : List Call) (o : Opportunity) (ctx : RiskContext)
    → All Holds cs
    → let d = (evaluate (run (step e (engages reason)) cs) o ctx).1 in
      (d.approved ≡ false) × (primary_skip d ≡ some SkipReason.kill_switch)
unfolding evaluate
engaged_refuses e reason cs o ctx h =
    let k = run-engaged (step e (engages reason)) cs h (unfold step engage in refl) in
    let r = run (step e (engages reason)) cs in
    let d = killed r.limits (roll_day r.state ctx.now) r.kill o ctx k in (d.1, d.0)

-- The failures in a list of calls.
abbrev pub failures : List Call → ℕ
failures [] = 0
failures (closes now false net_usd ∷ cs) = suc (failures cs)
failures (_ ∷ cs) = failures cs

abbrev pub NoSuccess : Call → Type 0
NoSuccess (closes now success net_usd) = success ≡ false
NoSuccess _ = Unit

open_execution-failures :
    (e : RiskEngine) → (open_execution e).state.consecutive_failures ≡ e.state.consecutive_failures
unfolding open_execution
open_execution-failures e = refl

roll_day-failures :
    (s : RiskState) (now : Ts) → (roll_day s now).consecutive_failures ≡ s.consecutive_failures
unfolding roll_day
roll_day-failures s now = ground arith

step-failures :
    (e : RiskEngine) (c : Call)
    → NoSuccess c
    → e.state.consecutive_failures + failures (c ∷ []) < 2 ^ 32
    → (step e c).state.consecutive_failures ≡ e.state.consecutive_failures + failures (c ∷ [])
unfolding step evaluate close_execution closed
step-failures e (asks o ctx) h lt = omega (arith, roll_day-failures e.state ctx.now)
step-failures e opens h lt = omega (arith, open_execution-failures e)
step-failures e (closes now false net_usd) h lt = omega (arith, roll_day-failures e.state now)
step-failures e (closes now true net_usd) h lt = cc
step-failures e (limits l) h lt = omega arith
step-failures e (engages reason) h lt = omega arith
step-failures e releases h lt = omega arith

failures-cons : (c : Call) (cs : List Call) → failures (c ∷ cs) ≡ failures (c ∷ []) + failures cs
failures-cons (closes now false net_usd) cs = omega arith
failures-cons (closes now true net_usd) cs = omega arith
failures-cons (asks o ctx) cs = omega arith
failures-cons opens cs = omega arith
failures-cons (limits l) cs = omega arith
failures-cons (engages reason) cs = omega arith
failures-cons releases cs = omega arith

-- After a success, and then any calls with no other success, the run of failures is their number
-- of failed executions.
run-failures :
    (e : RiskEngine) (cs : List Call)
    → All NoSuccess cs
    → e.state.consecutive_failures + failures cs < 2 ^ 32
    → (run e cs).state.consecutive_failures ≡ e.state.consecutive_failures + failures cs
unfolding run
run-failures e [] h lt = omega arith
run-failures e (c ∷ cs) h lt =
    let f = failures-cons c cs in
    let s = step-failures e c h.0 (omega arith) in
    let r = run-failures (step e c) cs h.1 (omega arith) in omega arith

-- When the failed executions since the last success reach the limit, no opportunity is approved,
-- whatever calls came in between.
pub failing_refuses :
    (e : RiskEngine) (now : Ts) (net_usd : UsdMicros) (cs : List Call) (o : Opportunity)
    (ctx : RiskContext)
    → All NoSuccess cs
    → failures cs < 2 ^ 32
    → (run (step e (closes now true net_usd)) cs).limits.max_consecutive_failures ≤ failures cs
    → (evaluate (run (step e (closes now true net_usd)) cs) o ctx).1.approved ≡ false
failing_refuses e now net_usd cs o ctx h lt reached =
    let start = step e (closes now true net_usd) in
    let z : start.state.consecutive_failures ≡ 0 = unfold step close_execution closed in refl in
    let n = run-failures start cs h (omega arith) in
    let f = roll_day-failures (run start cs).state ctx.now in
    elim (Bool-cases (evaluate (run start cs) o ctx).1.approved) [
      | inr no_approval ↦ no_approval
      | inl approved ↦
          let s = (evaluate-Safe (run start cs) o ctx).0 approved in
          absurd (omega (arith, s.failures))
    ]
