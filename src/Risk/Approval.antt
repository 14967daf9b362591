-- ===== src/Risk/Approval.antt =====
-- The decision of `RiskEngine::evaluate`, crates/risk/src/lib.rs, against the limits as an operator
-- reads them.
use mobius_searcher.Base.{
  ℕ, ◌+◌, ◌≤◌, ◌<◌, ◌≡◌, ◌↔◌, refl, Bool, true, false, ◌&&◌, Option, none, some, List, [], ◌∷◌,
  ◌++◌, ltb, leb, if◌then◌else◌, arith, All, ◌⊎◌, IfSome,
}
use mobius_searcher.Base.Int.{ℤ, pos, ◌≤ℤ◌, ◌<ℤ◌, ltb_ℤ, leb_ℤ}
use mobius_searcher.Core.Time.{age_ms}
use mobius_searcher.Core.Route.{worst_slippage}
use mobius_searcher.Core.Profit.{chosen_net}
use mobius_searcher.Core.Model.{
  sends_transactions, SimFidelity, exact, SimulationResult, RiskViolation, Opportunity,
  quote_age_ms,
}
use mobius_searcher.Risk.{
  RiskLimits, RiskState, RiskContext, RiskEngine, KillSwitch, roll_day, loss, trade_pct, is_exact,
  is_empty, joined, violation_if, check_equity, check_slippage, check_slot, check_simulated,
  check_simulation, check_wallet, checks, decide, evaluate,
}

abbrev Empty : List RiskViolation → Type 0
Empty vs = vs ≡ []

is_empty-Empty : (vs : List RiskViolation) → (is_empty vs ≡ true) ↔ Empty vs
is_empty-Empty [] = (λ h. refl, λ h. refl)
is_empty-Empty (v ∷ vs) = (λ h. cc, λ h. cc)

append-Empty : (a b : List RiskViolation) → Empty (a ++ b) ↔ (Empty a × Empty b)
append-Empty [] b = (λ h. (refl, h), λ h. h.1)
append-Empty (v ∷ a) b = (λ h. cc, λ h. cc)

joined-Empty : (cs : List (List RiskViolation)) → Empty (joined cs) ↔ All Empty cs
joined-Empty [] = (λ h. tt, λ h. refl)
joined-Empty (c ∷ cs) =
    let a = append-Empty c (joined cs) in
    let ih = joined-Empty cs in (λ h. ((a.0 h).0, ih.0 (a.0 h).1), λ h. a.1 (h.0, ih.1 h.1))

abbrev Near : ℕ → Option ℕ → Option ℕ → Type 0
Near lag latest at = IfSome (λ a. IfSome (λ b. a ≤ b + lag) at) latest

-- A simulation that may be relied on: it went through, it is recent, it is exact if anything will
-- be sent, and its slot is near the latest one, where both are known.
pub record Reliable (l : RiskLimits) (ctx : RiskContext) (sim : SimulationResult) : Type 0 where
  pub went_through : sim.ok ≡ true
  pub recent : age_ms sim.simulated_at ctx.now ≤ l.max_simulation_age_ms
  pub faithful : (sends_transactions ctx.mode ≡ false) ⊎ (sim.fidelity ≡ exact)
  pub near : Near l.max_slot_lag ctx.latest_slot sim.context_slot

abbrev Simulated : RiskLimits → RiskContext → Option SimulationResult → Type 0
Simulated l ctx none = ⊥
Simulated l ctx (some sim) = Reliable l ctx sim

-- The wallet has enough for fees; an unknown balance will do only where nothing is sent.
abbrev Funded : RiskLimits → Bool → Option ℕ → Type 0
Funded l sends none = sends ≡ false
Funded l sends (some w) = l.min_wallet_sol_for_fees_lamports ≤ w

-- The limits, as an operator reads them.
pub record Safe (l : RiskLimits) (st : RiskState) (kill : KillSwitch) (o : Opportunity)
    (ctx : RiskContext) : Type 0 where
  pub running : kill.engaged ≡ false
  pub size : o.input ≤ l.max_trade_lamports
  pub share :
      (ctx.equity_lamports ≡ 0)
      ⊎ (trade_pct o.input ctx.equity_lamports ≤ℤ l.max_trade_pct_of_equity_ppm)
  pub losses : loss st <ℤ l.max_daily_loss
  pub failures : st.consecutive_failures < l.max_consecutive_failures
  pub tolerance : IfSome (λ w. w ≤ l.max_slippage_bps) (worst_slippage o.route.legs)
  pub fresh : quote_age_ms o ctx.now ≤ l.max_quote_age_ms
  pub simulated : Simulated l ctx o.simulation
  pub fee : o.costs.priority_fee ≤ l.max_priority_fee_lamports
  pub tip : o.costs.jito_tip ≤ l.max_jito_tip_lamports
  pub funded : Funded l (sends_transactions ctx.mode) ctx.wallet_lamports
  pub room : st.open_executions < l.max_open_executions
  pub gains : pos 0 <ℤ chosen_net o.eval

slot-Near :
    (l : RiskLimits) (latest at : Option ℕ)
    → Empty (check_slot l latest at) ↔ Near l.max_slot_lag latest at
unfolding check_slot
slot-Near l (some a) (some b) = (λ h. ground arith, λ h. ground arith)
slot-Near l (some a) none = (λ h. tt, λ h. refl)
slot-Near l none b = (λ h. tt, λ h. refl)

violation-Empty : (b : Bool) (v : RiskViolation) → Empty (violation_if b v) ↔ (b ≡ false)
violation-Empty true v = (λ h. cc, λ h. cc)
violation-Empty false v = (λ h. refl, λ h. refl)

fidelity_test :
    (f : SimFidelity) (b : Bool)
    → (((if is_exact f then false else true) && b) ≡ false) ↔ ((b ≡ false) ⊎ (f ≡ exact))
fidelity_test f b = ground arith

simulated-Reliable :
    (l : RiskLimits) (ctx : RiskContext) (sim : SimulationResult)
    → Empty (check_simulated l ctx sim) ↔ Reliable l ctx sim
unfolding check_simulated
simulated-Reliable l ctx sim =
    let age = age_ms sim.simulated_at ctx.now in
    let failed = violation_if (if sim.ok then false else true) RiskViolation.simulation_failed in
    let old =
      violation_if (ltb l.max_simulation_age_ms age)
        (RiskViolation.simulation_age age l.max_simulation_age_ms) in
    let vague =
      violation_if ((if is_exact sim.fidelity then false else true) && sends_transactions ctx.mode)
        RiskViolation.inexact_simulation in
    let slot = check_slot l ctx.latest_slot sim.context_slot in
    let a = append-Empty failed (old ++ (vague ++ slot)) in
    let b = append-Empty old (vague ++ slot) in
    let c = append-Empty vague slot in
    let n = slot-Near l ctx.latest_slot sim.context_slot in
    let f = fidelity_test sim.fidelity (sends_transactions ctx.mode) in
    let v =
      violation-Empty
        ((if is_exact sim.fidelity then false else true) && sends_transactions ctx.mode)
        RiskViolation.inexact_simulation in
    (
      λ h.
          let (h1, r1) = a.0 h in
          let (h2, r2) = b.0 r1 in
          let (h3, h4) = c.0 r2 in
          record {
            went_through = ground arith;
            recent = ground arith;
            faithful = f.0 (v.0 h3);
            near = n.0 h4;
          },
      λ r. a.1 (
        ground (arith, r.went_through),
        b.1 (ground (arith, r.recent), c.1 (v.1 (f.1 r.faithful), n.1 r.near)),
      ),
    )

simulation-Simulated :
    (l : RiskLimits) (ctx : RiskContext) (o : Opportunity)
    → Empty (check_simulation l ctx o) ↔ Simulated l ctx o.simulation
unfolding check_simulation
simulation-Simulated l ctx o = go o.simulation
  where
    go :
        (sim : Option SimulationResult)
        → Empty (elim sim [
          | none ↦ RiskViolation.simulation_missing ∷ []
          | some s ↦ check_simulated l ctx s
        ])
          ↔ Simulated l ctx sim
    go none = (λ h. cc, λ h. absurd h)
    go (some s) = simulated-Reliable l ctx s

slippage-tolerance :
    (l : RiskLimits) (o : Opportunity)
    → Empty (check_slippage l o)
      ↔ IfSome (λ w. w ≤ l.max_slippage_bps) (worst_slippage o.route.legs)
unfolding check_slippage
slippage-tolerance l o = go (worst_slippage o.route.legs)
  where
    go :
        (worst : Option ℕ)
        → Empty (elim worst [
          | none ↦ []
          | some w ↦
              violation_if (ltb l.max_slippage_bps w) (RiskViolation.slippage w l.max_slippage_bps)
        ])
          ↔ IfSome (λ w. w ≤ l.max_slippage_bps) worst
    go none = (λ h. tt, λ h. refl)
    go (some w) = (λ h. ground arith, λ h. ground arith)

wallet-Funded :
    (l : RiskLimits) (ctx : RiskContext)
    → Empty (check_wallet l ctx) ↔ Funded l (sends_transactions ctx.mode) ctx.wallet_lamports
unfolding check_wallet
wallet-Funded l ctx = go ctx.wallet_lamports (sends_transactions ctx.mode)
  where
    least : ℕ
    least = l.min_wallet_sol_for_fees_lamports

    go :
        (wallet : Option ℕ) (sends : Bool)
        → Empty (elim wallet [
          | none ↦ violation_if sends (RiskViolation.wallet_sol_for_fees 0 least)
          | some w ↦ violation_if (ltb w least) (RiskViolation.wallet_sol_for_fees w least)
        ])
          ↔ Funded l sends wallet
    go none sends = violation-Empty sends (RiskViolation.wallet_sol_for_fees 0 least)
    go (some w) sends = (λ h. ground arith, λ h. ground arith)

equity-share :
    (l : RiskLimits) (ctx : RiskContext) (o : Opportunity)
    → Empty (check_equity l ctx o) ↔ (
        (ctx.equity_lamports ≡ 0)
        ⊎ (trade_pct o.input ctx.equity_lamports ≤ℤ l.max_trade_pct_of_equity_ppm))
unfolding check_equity
equity-share l ctx o = go (trade_pct o.input ctx.equity_lamports)
  where
    go :
        (pct : ℤ)
        → Empty (
            violation_if
              (ltb 0 ctx.equity_lamports && ltb_ℤ l.max_trade_pct_of_equity_ppm pct)
              (RiskViolation.trade_pct_of_equity pct l.max_trade_pct_of_equity_ppm))
          ↔ ((ctx.equity_lamports ≡ 0) ⊎ (pct ≤ℤ l.max_trade_pct_of_equity_ppm))
    go pct = (λ h. ground arith, λ h. ground arith)

at_most : (a b : ℕ) (v : RiskViolation) → Empty (violation_if (ltb b a) v) ↔ (a ≤ b)
at_most a b v = (λ h. ground arith, λ h. ground arith)

below : (a b : ℕ) (v : RiskViolation) → Empty (violation_if (leb b a) v) ↔ (a < b)
below a b v = (λ h. ground arith, λ h. ground arith)

below_ℤ : (a b : ℤ) (v : RiskViolation) → Empty (violation_if (leb_ℤ b a) v) ↔ (a <ℤ b)
below_ℤ a b v = (λ h. ground arith, λ h. ground arith)

positive : (a : ℤ) (v : RiskViolation) → Empty (violation_if (leb_ℤ a (pos 0)) v) ↔ (pos 0 <ℤ a)
positive a v = (λ h. ground arith, λ h. ground arith)

-- The list of checks is clear exactly when the limits are respected.
checks-Safe :
    (l : RiskLimits) (st : RiskState) (kill : KillSwitch) (o : Opportunity) (ctx : RiskContext)
    → All Empty (checks l st kill o ctx) ↔ Safe l st kill o ctx
unfolding checks
checks-Safe l st kill o ctx = (
  λ h. record {
    running = (violation-Empty kill.engaged _).0 h.0;
    size = (at_most o.input l.max_trade_lamports _).0 h.1.0;
    share = (equity-share l ctx o).0 h.1.1.0;
    losses = (below_ℤ (loss st) l.max_daily_loss _).0 h.1.1.1.0;
    failures = (below st.consecutive_failures l.max_consecutive_failures _).0 h.1.1.1.1.0;
    tolerance = (slippage-tolerance l o).0 h.1.1.1.1.1.0;
    fresh = (at_most (quote_age_ms o ctx.now) l.max_quote_age_ms _).0 h.1.1.1.1.1.1.0;
    simulated = (simulation-Simulated l ctx o).0 h.1.1.1.1.1.1.1.0;
    fee = (at_most o.costs.priority_fee l.max_priority_fee_lamports _).0 h.1.1.1.1.1.1.1.1.0;
    tip = (at_most o.costs.jito_tip l.max_jito_tip_lamports _).0 h.1.1.1.1.1.1.1.1.1.0;
    funded = (wallet-Funded l ctx).0 h.1.1.1.1.1.1.1.1.1.1.0;
    room = (below st.open_executions l.max_open_executions _).0 h.1.1.1.1.1.1.1.1.1.1.1.0;
    gains = (positive (chosen_net o.eval) _).0 h.1.1.1.1.1.1.1.1.1.1.1.1.0;
  },
  λ s. (
    (violation-Empty kill.engaged _).1 s.running,
    (
      (at_most o.input l.max_trade_lamports _).1 s.size,
      (
        (equity-share l ctx o).1 s.share,
        (
          (below_ℤ (loss st) l.max_daily_loss _).1 s.losses,
          (
            (below st.consecutive_failures l.max_consecutive_failures _).1 s.failures,
            (
              (slippage-tolerance l o).1 s.tolerance,
              (
                (at_most (quote_age_ms o ctx.now) l.max_quote_age_ms _).1 s.fresh,
                (
                  (simulation-Simulated l ctx o).1 s.simulated,
                  (
                    (at_most o.costs.priority_fee l.max_priority_fee_lamports _).1 s.fee,
                    (
                      (at_most o.costs.jito_tip l.max_jito_tip_lamports _).1 s.tip,
                      (
                        (wallet-Funded l ctx).1 s.funded,
                        (
                          (below st.open_executions l.max_open_executions _).1 s.room,
                          ((positive (chosen_net o.eval) _).1 s.gains, tt),
                        ),
                      ),
                    ),
                  ),
                ),
              ),
            ),
          ),
        ),
      ),
    ),
  ),
)

-- The engine approves exactly the opportunities that respect every limit on the day's state.
pub evaluate-Safe :
    (e : RiskEngine) (o : Opportunity) (ctx : RiskContext)
    → ((evaluate e o ctx).1.approved ≡ true) ↔ Safe e.limits (roll_day e.state ctx.now) e.kill o ctx
unfolding evaluate decide
evaluate-Safe e o ctx =
    let cs = checks e.limits (roll_day e.state ctx.now) e.kill o ctx in
    let a = is_empty-Empty (joined cs) in
    let b = joined-Empty cs in
    let c = checks-Safe e.limits (roll_day e.state ctx.now) e.kill o ctx in
    (λ h. c.0 (b.0 (a.0 h)), λ s. a.1 (b.1 (c.1 s)))
