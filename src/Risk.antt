-- ===== src/Risk.antt =====
-- crates/risk/src/lib.rs: the risk engine, the last gate before anything is executed, and the kill
-- switch. The engine's mutexes are taken one call at a time, so a call is a function of the
-- engine's state. The kill switch that the engine shares with its callers is a field of the engine,
-- and the callers' uses of it are operations on that field.
pub mod Approval
pub mod History
pub mod Reason
pub mod Samples
pub mod Limits
mod Tests
use Prim.Native.String.{String}
use mobius_searcher.Base.{
  ℕ, ◌+◌, ◌-◌, ◌*◌, ◌/◌, ◌%◌, ◌^◌, Bool, true, false, ◌&&◌, Option, none, some, List, [], ◌∷◌, ◌++◌,
  ltb, leb, ◌==◌, if◌then◌else◌,
}
use mobius_searcher.Base.Int.{ℤ, pos, neg_ℤ, ltb_ℤ, leb_ℤ, min_ℤ, div_euclid}
use mobius_searcher.Base.Words.{wrap_i64}
use mobius_searcher.Core.Units.{UsdMicros, UsdPrice, saturating_add}
use mobius_searcher.Core.Time.{Ts, age_ms}
use mobius_searcher.Core.Route.{Leg, worst_slippage}
use mobius_searcher.Core.Profit.{chosen_net}
use mobius_searcher.Core.Model.{
  Mode, sends_transactions, SimFidelity, exact, per_tx, SimulationResult, RiskViolation,
  RiskDecision, Opportunity, quote_age_ms,
}

-- `KillSwitch`
pub record KillSwitch : Type 0 where
  pub engaged : Bool
  pub reason : String

-- `KillSwitch::engage` tells whether this call engaged it; `release`, whether it was engaged.
unfoldable pub engage : KillSwitch → String → KillSwitch × Bool
engage k reason = (record { engaged = true; reason = reason }, if k.engaged then false else true)

unfoldable pub release : KillSwitch → KillSwitch × Bool
release k = (record k { engaged = false }, k.engaged)

pub record RiskLimits : Type 0 where
  pub max_trade_lamports : ℕ
  pub max_trade_pct_of_equity_ppm : ℤ
  pub max_daily_loss : UsdMicros
  pub max_consecutive_failures : ℕ
  pub max_slippage_bps : ℕ
  pub max_quote_age_ms : ℕ
  pub max_simulation_age_ms : ℕ
  pub max_priority_fee_lamports : ℕ
  pub max_jito_tip_lamports : ℕ
  pub min_wallet_sol_for_fees_lamports : ℕ
  pub max_open_executions : ℕ
  pub max_slot_lag : ℕ

pub record RiskState : Type 0 where
  pub day : ℤ
  pub daily_pnl : UsdMicros
  pub consecutive_failures : ℕ
  pub open_executions : ℕ

pub record RiskContext : Type 0 where
  pub now : Ts
  pub mode : Mode
  pub equity_lamports : ℕ
  pub wallet_lamports : Option ℕ
  pub sol_price : Option UsdPrice
  pub latest_slot : Option ℕ

pub record RiskEngine : Type 0 where
  pub limits : RiskLimits
  pub state : RiskState
  pub kill : KillSwitch

abbrev pub initial_state : RiskState
initial_state = record {
  day = pos 0;
  daily_pnl = pos 0;
  consecutive_failures = 0;
  open_executions = 0;
}

-- `RiskEngine::new` and `set_limits`
abbrev pub new : RiskLimits → KillSwitch → RiskEngine
new limits kill = record { limits = limits; state = initial_state; kill = kill }

abbrev pub set_limits : RiskEngine → RiskLimits → RiskEngine
set_limits e limits = record e { limits = limits }

unfoldable pub utc_day : Ts → ℤ
utc_day ts = div_euclid ts 86_400_000_000

abbrev pub same_ℤ : ℤ → ℤ → Bool
same_ℤ a b = leb_ℤ a b && leb_ℤ b a

-- `RiskEngine::roll_day`: a new UTC day starts with no profit and no loss.
unfoldable pub roll_day : RiskState → Ts → RiskState
roll_day s now =
    if same_ℤ s.day (utc_day now) then s else record s { day = utc_day now; daily_pnl = pos 0 }

abbrev pub violation_if : Bool → RiskViolation → List RiskViolation
violation_if b v = if b then v ∷ [] else []

-- `(o.input as i128 * 1_000_000 / equity as i128) as i64`
abbrev pub trade_pct : ℕ → ℕ → ℤ
trade_pct input equity = wrap_i64 (pos (input * 1_000_000 / equity))

-- `-st.daily_pnl.0` in i64
abbrev pub loss : RiskState → ℤ
loss st = wrap_i64 (neg_ℤ st.daily_pnl)

-- The checks of `evaluate`, each with the violations that it pushes, in their order.
unfoldable pub check_equity : RiskLimits → RiskContext → Opportunity → List RiskViolation
check_equity l ctx o =
    let pct = trade_pct o.input ctx.equity_lamports in
    violation_if (ltb 0 ctx.equity_lamports && ltb_ℤ l.max_trade_pct_of_equity_ppm pct)
      (RiskViolation.trade_pct_of_equity pct l.max_trade_pct_of_equity_ppm)

unfoldable pub check_slippage : RiskLimits → Opportunity → List RiskViolation
check_slippage l o = elim (worst_slippage o.route.legs) [
  | none ↦ []
  | some worst ↦
      violation_if (ltb l.max_slippage_bps worst) (RiskViolation.slippage worst l.max_slippage_bps)
]

abbrev pub is_exact : SimFidelity → Bool
is_exact exact = true
is_exact per_tx = false

unfoldable pub check_slot : RiskLimits → Option ℕ → Option ℕ → List RiskViolation
check_slot l (some latest) (some at) =
    violation_if (ltb l.max_slot_lag (latest - at))
      (RiskViolation.slot_stale (latest - at) l.max_slot_lag)
check_slot l _ _ = []

unfoldable pub check_simulated : RiskLimits → RiskContext → SimulationResult → List RiskViolation
unfolding check_slot
check_simulated l ctx sim =
    let age = age_ms sim.simulated_at ctx.now in
    violation_if (if sim.ok then false else true) RiskViolation.simulation_failed
    ++ (violation_if (ltb l.max_simulation_age_ms age)
          (RiskViolation.simulation_age age l.max_simulation_age_ms)
        ++ (violation_if
              ((if is_exact sim.fidelity then false else true) && sends_transactions ctx.mode)
              RiskViolation.inexact_simulation
            ++ check_slot l ctx.latest_slot sim.context_slot))

unfoldable pub check_simulation : RiskLimits → RiskContext → Opportunity → List RiskViolation
unfolding check_simulated
check_simulation l ctx o = elim o.simulation [
  | none ↦ RiskViolation.simulation_missing ∷ []
  | some sim ↦ check_simulated l ctx sim
]

unfoldable pub check_wallet : RiskLimits → RiskContext → List RiskViolation
check_wallet l ctx = elim ctx.wallet_lamports [
  | none ↦
      violation_if (sends_transactions ctx.mode)
        (RiskViolation.wallet_sol_for_fees 0 l.min_wallet_sol_for_fees_lamports)
  | some w ↦
      violation_if (ltb w l.min_wallet_sol_for_fees_lamports)
        (RiskViolation.wallet_sol_for_fees w l.min_wallet_sol_for_fees_lamports)
]

abbrev pub joined : List (List RiskViolation) → List RiskViolation
joined [] = []
joined (c ∷ cs) = c ++ joined cs

unfoldable pub checks :
    RiskLimits → RiskState → KillSwitch → Opportunity → RiskContext → List (List RiskViolation)
checks l st kill o ctx =
    violation_if kill.engaged RiskViolation.kill_switch
    ∷ violation_if (ltb l.max_trade_lamports o.input)
        (RiskViolation.trade_size o.input l.max_trade_lamports)
    ∷ check_equity l ctx o
    ∷ violation_if (leb_ℤ l.max_daily_loss (loss st))
        (RiskViolation.daily_loss (loss st) l.max_daily_loss)
    ∷ violation_if (leb l.max_consecutive_failures st.consecutive_failures)
        (RiskViolation.consecutive_failures st.consecutive_failures l.max_consecutive_failures)
    ∷ check_slippage l o
    ∷ violation_if (ltb l.max_quote_age_ms (quote_age_ms o ctx.now))
        (RiskViolation.quote_age (quote_age_ms o ctx.now) l.max_quote_age_ms)
    ∷ check_simulation l ctx o
    ∷ violation_if (ltb l.max_priority_fee_lamports o.costs.priority_fee)
        (RiskViolation.priority_fee o.costs.priority_fee l.max_priority_fee_lamports)
    ∷ violation_if (ltb l.max_jito_tip_lamports o.costs.jito_tip)
        (RiskViolation.jito_tip o.costs.jito_tip l.max_jito_tip_lamports)
    ∷ check_wallet l ctx
    ∷ violation_if (leb l.max_open_executions st.open_executions)
        (RiskViolation.open_executions st.open_executions l.max_open_executions)
    ∷ violation_if (leb_ℤ (chosen_net o.eval) (pos 0))
        (RiskViolation.negative_expected_pnl (chosen_net o.eval))
    ∷ []

abbrev pub is_empty : List RiskViolation → Bool
is_empty [] = true
is_empty (v ∷ vs) = false

-- The decision at a given state.
unfoldable pub decide :
    RiskLimits → RiskState → KillSwitch → Opportunity → RiskContext → RiskDecision
unfolding checks
decide l st kill o ctx =
    let v = joined (checks l st kill o ctx) in
    record { opportunity = o.id; approved = is_empty v; violations = v; checked_at = ctx.now }

-- `RiskEngine::evaluate`; reading the state rolls its day.
unfoldable pub evaluate : RiskEngine → Opportunity → RiskContext → RiskEngine × RiskDecision
unfolding decide
evaluate e o ctx =
    let st = roll_day e.state ctx.now in (record e { state = st }, decide e.limits st e.kill o ctx)

-- `RiskEngine::open_execution`: a u32 that wraps.
unfoldable pub open_execution : RiskEngine → RiskEngine
open_execution e = record e {
  state = record (e.state) { open_executions = (e.state.open_executions + 1) % 2 ^ 32 };
}

unfoldable pub closed : RiskState → Bool → UsdMicros → RiskState
closed s success net_usd = record s {
  open_executions = s.open_executions - 1;
  daily_pnl = saturating_add s.daily_pnl net_usd;
  consecutive_failures = if success then 0 else (s.consecutive_failures + 1) % 2 ^ 32;
}

-- `RiskEngine::close_execution`
unfoldable pub close_execution : RiskEngine → Ts → Bool → UsdMicros → RiskEngine
unfolding closed
close_execution e now success net_usd = record e {
  state = closed (roll_day e.state now) success net_usd;
}
