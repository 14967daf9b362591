-- ===== src/Execution/Examine.antt =====
-- crates/execution/src/pipeline.rs between the quotes and the risk decision: `simulate_txs` and
-- `simulate_job`. The RPC node is a parameter on the world, as are the thresholds, which the operator
-- may replace at any time, and the parts of crates/execution/src/assemble.rs that read a
-- transaction. Sums on u64 and i64 wrap. Stages and metrics, which are only shown, are left out.
pub mod Simulated
pub mod Examined
pub mod Samples
mod Tests
use Prim.Native.String.{String}
use mobius_searcher.Base.{
  ℕ, zero, suc, ◌+◌, ◌%◌, ◌^◌, Bool, true, false, ◌&&◌, not, Option, none, some, List, [], ◌∷◌,
  ◌++◌, map, length, ltb, ◌==◌, ◌!=◌, if◌then◌else◌, ◌>>=◌,
}
use mobius_searcher.Base.Int.{ℤ, ◌+ℤ◌, neg_ℤ}
use mobius_searcher.Base.Words.{wrap_i64}
use mobius_searcher.Base.Results.{Result, ok, err}
use mobius_searcher.Core.Units.{Ppm, priority_fee_lamports}
use mobius_searcher.Core.Time.{Ts}
use mobius_searcher.Core.Route.{Leg, Address}
use mobius_searcher.Core.Costs.{CostParams, TxShape, bundle}
use mobius_searcher.Core.Profit.{ProfitGuards}
use mobius_searcher.Core.Model.{
  PlanKind, SkipReason, OppStatus, Opportunity, SimFailure, SimFailureClass, SimFidelity, TxSim,
  SimulationResult, quote_age_ms,
}
use mobius_searcher.Jito.Tip.{TipPolicyConfig, TipFloor, quote}
use mobius_searcher.Strategy.Pricing.{
  TipInfo, PricingEnv, as_i64, sub_i64, reprice_after_simulation, intermediate_shortfall_value,
  intermediate_drift_value,
}
use mobius_searcher.Execution.Live.{Run}
use mobius_searcher.Execution.Decide.{
  PipelineConfig, Surroundings, SimJob, Pipe, Done, show, decide,
}
use mobius_searcher.Execution.Simulate.{SimulateOutcome, AssembledTx, failure_from, tx_sim}

-- `Thresholds`, without the slippage that is asked for.
pub record Thresholds : Type 0 where
  pub guards : ProfitGuards
  pub cost_params : CostParams
  pub protect_min_out : Bool

-- `SimJob`, with what the simulator reads of it.
pub record Candidate (Tx : Type 0) : Type 0 where
  pub job : SimJob
  pub txs : List (AssembledTx Tx)
  pub sim_cu_limit : ℕ
  pub sim_cu_price : ℕ
  pub sim_tip : ℕ
  pub atas_to_create : ℕ

-- The balances before and after a transaction.
abbrev pub Balances : Type 0
Balances = List ℕ × List ℕ

-- What the simulator reads of the world, beside what `decide` reads.
pub record Simulator (W Tx : Type 0) : Type 0 where
  pub simulate : AssembledTx Tx → W → Result SimulateOutcome × W
  pub keys : Tx → Option (List Address)
  pub base64 : List ℕ → Option (List ℕ)
  pub sol_equivalent_delta : Candidate Tx → Balances → Option ℤ
  pub elapsed_ms : W → W → ℕ
  pub thresholds : W → Thresholds
  pub tip_floor : W → Option TipFloor
  pub tip_policy : TipPolicyConfig
  pub has_taker : Bool
  pub base_decimals : ℕ

-- The first leg that delivered less than the next one needs, with both amounts.
unfoldable pub inventory_short : ℕ → List Leg → List ℕ → Option (ℕ × ℕ × ℕ)
inventory_short i (l ∷ next ∷ ls) (got ∷ gots) =
    let rest = inventory_short (i + 1) (next ∷ ls) gots in
    if ltb got next.in_amount then some (i + 1, next.in_amount, got) else rest
inventory_short i _ _ = none

-- What the loop of `simulate_txs` keeps.
pub record Sims (W : Type 0) : Type 0 where
  pub txs : List TxSim
  pub failure : Option SimFailure
  pub context_slot : Option ℕ
  pub balances : Option Balances
  pub world : W

abbrev pub or_else : {A : Type 0} → Option A → Option A → Option A
or_else (some a) o = some a
or_else none o = o

abbrev pub balances_of : SimulateOutcome → Option Balances
balances_of out = do pre ← out.pre_balances; post ← out.post_balances; some (pre, post)

abbrev depends : SimFailureClass → Bool
depends SimFailureClass.program_error = true
depends SimFailureClass.insufficient_funds = true
depends _ = false

-- A later transaction of a bundle is simulated without those before it.
abbrev pub dependent : PlanKind → ℕ → SimFailure → SimFailure
dependent PlanKind.bundle i f =
    if ltb 0 i && depends f.class
    then record f { class = SimFailureClass.depends_on_prior_tx }
    else f
dependent PlanKind.single_tx i f = f

abbrev pub failure_at : PlanKind → ℕ → SimulateOutcome → Option SimFailure
failure_at plan i out = failure_from (i % 2 ^ 8) out >>= λ f. some (dependent plan i f)

abbrev pub all_ok : List TxSim → Bool
all_ok [] = true
all_ok (t ∷ ts) = t.ok && all_ok ts

abbrev pub is_none : {A : Type 0} → Option A → Bool
is_none none = true
is_none (some a) = false

abbrev pub fidelity_of : PlanKind → SimFidelity
fidelity_of PlanKind.single_tx = SimFidelity.exact
fidelity_of PlanKind.bundle = SimFidelity.per_tx

abbrev pub is_quoted : OppStatus → Bool
is_quoted OppStatus.quoted = true
is_quoted _ = false

abbrev pub shape_of : PlanKind → ℕ → TxShape
shape_of PlanKind.bundle n = bundle n
shape_of PlanKind.single_tx n = bundle 1

-- `iter().map(|(_, l)| *l).sum::<u64>()`
abbrev pub deposits_of : List (Address × ℕ) → ℕ
deposits_of [] = 0
deposits_of ((k, l) ∷ rest) = (l + deposits_of rest) % 2 ^ 64

-- `(sim.fidelity == Exact && sim.txs.len() == 1).then(|| &sim.txs[0])`
abbrev pub exact_tx : SimFidelity → List TxSim → Option TxSim
exact_tx SimFidelity.exact (t ∷ []) = some t
exact_tx _ _ = none

abbrev add_i64 : ℤ → ℤ → ℤ
add_i64 a b = wrap_i64 (a +ℤ b)

-- The drift of the inventory; unknown outputs count as the worst case.
unfoldable pub drift_or_worst : List Leg → List ℕ → ℤ
drift_or_worst legs executed = elim (intermediate_drift_value legs executed) [
  | some d ↦ d
  | none ↦ wrap_i64 (neg_ℤ (as_i64 (intermediate_shortfall_value legs)))
]

-- Why a candidate whose simulation failed is skipped.
unfoldable pub failed_reason : Option SimFailure → Option (ℕ × ℕ × ℕ) → SkipReason
failed_reason none short = SkipReason.sim_failed
failed_reason (some f) short = elim f.class [
  | SimFailureClass.rpc_error ↦ SkipReason.sim_unavailable
  | SimFailureClass.slippage_exceeded ↦ SkipReason.slippage
  | SimFailureClass.insufficient_funds ↦
      if is_none short then SkipReason.sim_failed else SkipReason.inventory
  | _ ↦ SkipReason.sim_failed
]

abbrev outputs_of_first : List TxSim → List ℕ
outputs_of_first [] = []
outputs_of_first (t ∷ ts) = t.leg_outputs

module _ {W Tx : Type 0} (c : PipelineConfig Tx) (s : Surroundings W Tx) (m : Simulator W Tx) where
  -- One round of the loop, on an outcome, at the margin that was read before the loop.
  pub noted :
      Candidate Tx → Ppm → ℕ → AssembledTx Tx → SimulateOutcome → W → Sims W → Option (Sims W)
  noted cand margin i a out w st = do
    let single = length cand.txs == 1
    t ← tx_sim m.base64 (i % 2 ^ 8) a out margin (if single then m.keys a.tx else none)
    some (record {
      txs = st.txs ++ (t ∷ []);
      failure = or_else st.failure (failure_at cand.job.plan i out);
      context_slot = or_else st.context_slot out.context_slot;
      balances = if single then or_else (balances_of out) st.balances else st.balances;
      world = w;
    })

  -- An error of the node ends the loop.
  abbrev pub node_failed : ℕ → String → W → Sims W → Sims W
  node_failed i text w st = record st {
    failure =
        some (record { class = SimFailureClass.rpc_error; tx_index = i % 2 ^ 8; message = text });
    world = w;
  }

  pub simulate_each : Candidate Tx → Ppm → ℕ → List (AssembledTx Tx) → Sims W → Option (Sims W)
  simulate_each cand margin i [] st = some st
  simulate_each cand margin i (a ∷ as') st =
      let (answer, w) = m.simulate a st.world in
      elim answer [
        | err text ↦ some (node_failed i text w st)
        | ok out ↦
            noted cand margin i a out w st >>= λ st'. simulate_each cand margin (i + 1) as' st'
      ]

  abbrev pub summary : Candidate Tx → W → Sims W → SimulationResult
  summary cand started st = record {
    opportunity = cand.job.opp.id;
    plan = cand.job.plan;
    fidelity = fidelity_of cand.job.plan;
    ok = is_none st.failure && (length st.txs == length cand.txs && all_ok st.txs);
    failure = st.failure;
    txs = st.txs;
    latency_ms = m.elapsed_ms started st.world;
    simulated_at = s.now st.world;
    context_slot = st.context_slot;
  }

  unfoldable pub simulate_txs : Candidate Tx → W → Option (SimulationResult × Option Balances × W)
  unfolding simulate_each
  simulate_txs cand w = do
    let margin = (m.thresholds w).cost_params.cu_margin
    st ←
        simulate_each cand margin 0 cand.txs
          (record { txs = []; failure = none; context_slot = none; balances = none; world = w })
    some (summary cand w st, st.balances, st.world)

  abbrev pub env_at : W → PricingEnv
  env_at w = record {
    cost_params = (m.thresholds w).cost_params;
    guards = (m.thresholds w).guards;
    tip = λ profit.
        let q = quote m.tip_policy (m.tip_floor w) profit in
        record { lamports = q.lamports; capped = q.capped };
  }

  -- The measured change of the balance, at the final tip and compute limit.
  unfoldable pub delta_of :
      Candidate Tx → SimulationResult → Option Balances → Opportunity → Option ℤ
  delta_of cand sim balances o = do
    t ← if length cand.txs == 1 then exact_tx sim.fidelity sim.txs else none
    b ← balances
    d ← m.sol_equivalent_delta cand b
    let drifted = add_i64 d (drift_or_worst o.route.legs t.leg_outputs)
    let fee = as_i64 (priority_fee_lamports cand.sim_cu_limit cand.sim_cu_price)
    let with_fee = add_i64 (add_i64 drifted (as_i64 (deposits_of t.created))) fee
    let with_tip = add_i64 (sub_i64 with_fee (as_i64 o.costs.priority_fee)) (as_i64 cand.sim_tip)
    some (sub_i64 with_tip (as_i64 o.costs.jito_tip))

  abbrev pub deposits_at : SimulationResult → Option ℕ
  deposits_at sim = exact_tx sim.fidelity sim.txs >>= λ t. some (deposits_of t.created)

  -- One round of pricing at the measured consumption.
  abbrev pub priced_again :
      Candidate Tx
      → SimulationResult
      → W
      → Ts
      → Opportunity
      → Option ℤ
      → Option ℕ
      → Option Opportunity
  priced_again cand sim w now o delta deposits =
      reprice_after_simulation o (shape_of cand.job.plan (length cand.txs))
        (map (λ (t : TxSim). t.units_consumed) sim.txs) delta deposits cand.atas_to_create
        (env_at w) m.base_decimals now

  -- The price after the simulation, in two rounds: the second knows the costs of the first.
  unfoldable pub measured :
      Candidate Tx → SimulationResult → Option Balances → W → Ts → Option Opportunity
  measured cand sim balances w now = do
    first ← priced_again cand sim w now cand.job.opp none none
    priced_again cand sim w now first (delta_of cand sim balances first) (deposits_at sim)

  -- The opportunity after the simulation: by whether that was good, and whether it was a candidate.
  -- A sample keeps its first reason.
  unfoldable pub concluded_by :
      Bool → Bool → Opportunity → SimulationResult → Option Opportunity → Option Opportunity
  concluded_by true true o sim priced = priced
  concluded_by true false o sim priced = priced >>= λ o'. some (record o' { status = o.status })
  concluded_by false true o sim priced =
      let short = inventory_short 0 o.route.legs (outputs_of_first sim.txs) in
      some (record o { status = OppStatus.skipped (failed_reason sim.failure short) })
  concluded_by false false o sim priced = some o

  abbrev pub concluded :
      Candidate Tx → SimulationResult → Option Balances → W → Ts → Option Opportunity
  concluded cand sim balances w now =
      concluded_by sim.ok (is_quoted cand.job.opp.status) cand.job.opp sim
        (measured cand sim balances w now)

  abbrev pub in_world : W → Pipe W → Pipe W
  in_world w p = record p { run = record { world = w; calls = p.run.calls } }

  -- What follows, with the simulation on the opportunity.
  pub proceed : ℕ → Candidate Tx → SimulationResult → Opportunity → Pipe W → Done W
  proceed fuel cand sim o p =
      let o' : Opportunity = record o { simulation = some sim; updated_at = s.now p.run.world } in
      if is_quoted o'.status
      then decide c s fuel (record (cand.job) { opp = o' }) p
      else some (show p o' o'.status)

  -- A candidate that ends here is shown; a sample is dropped.
  abbrev pub turned_away : Candidate Tx → Ts → SkipReason → Pipe W → Pipe W × Opportunity
  turned_away cand now r p =
      let o = cand.job.opp in
      if is_quoted o.status
      then show p (record o { updated_at = now }) (OppStatus.skipped r)
      else (p, o)

  pub examine : ℕ → Candidate Tx → Ts → Pipe W → Done W
  unfolding concluded_by proceed
  examine fuel cand now p = do
    (sim, balances, w) ← simulate_txs cand p.run.world
    o ← concluded cand sim balances w now
    proceed fuel cand sim o (in_world w p)

  unfoldable pub simulate_job : ℕ → Candidate Tx → Pipe W → Done W
  unfolding examine
  simulate_job fuel cand p =
      let now = s.now p.run.world in
      let o = cand.job.opp in
      if ltb c.max_quote_age_ms (quote_age_ms o now)
      then some (turned_away cand now SkipReason.stale_quote p)
      else if not m.has_taker
      then some (turned_away cand o.updated_at SkipReason.sim_unavailable p)
      else examine fuel cand now p
