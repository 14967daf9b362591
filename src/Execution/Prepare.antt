-- ===== src/Execution/Prepare.antt =====
-- crates/execution/src/pipeline.rs from a fully quoted route to the job for the simulator: `finish`
-- with `price_legs`, `prepare` and `protect`. Of a built leg the model keeps the leg. The client that
-- quotes again and the assembly of the transactions are parameters on the world; the look-up of the
-- token accounts is part of the assembly. `none` is a panic. Stages and metrics are left out.
pub mod Safeguarded
pub mod Protected
mod Tests
use mobius_searcher.Base.{
  ℕ, ◌+◌, ◌%◌, ◌^◌, Bool, true, false, ◌&&◌, ◌||◌, Option, none, some, List, [], ◌∷◌, length, ltb,
  leb, if◌then◌else◌, ◌>>=◌,
}
use mobius_searcher.Core.Units.{max_compute_units_per_tx}
use mobius_searcher.Core.Route.{Leg}
use mobius_searcher.Core.Costs.{TxShape, bundle, last_leg}
use mobius_searcher.Core.Model.{PlanKind, SkipReason, OppStatus, Opportunity}
use mobius_searcher.Strategy.Plan.{LegSpec, CandidatePlan}
use mobius_searcher.Strategy.Pricing.{
  PricingInput, price, required_final_out, protective_slippage_bps,
}
use mobius_searcher.Execution.Decide.{PipelineConfig, Surroundings}
use mobius_searcher.Execution.Simulate.{AssembledTx}
use mobius_searcher.Execution.Examine.{Candidate, Simulator, is_quoted, shape_of, env_at}

-- The answer of the client, and of the assembly.
pub data Requote : Type 0 where
  built : Leg → Requote
  rate_limited other_error : Requote

pub data Assembly (Tx : Type 0) : Type 0 where
  assembled : PlanKind → List (AssembledTx Tx) → Assembly Tx
  refused : Bool → Assembly Tx

-- Asking for a leg again at an amount and a fixed slippage; and the transactions for an
-- opportunity, with whether there is a tip account.
pub record Builder (W Tx : Type 0) : Type 0 where
  pub requote : LegSpec → ℕ → ℕ → W → Requote × W
  pub assemble : Opportunity → List Leg → W → (Assembly Tx × Bool) × W

abbrev pub last_spec : List LegSpec → Option LegSpec
last_spec [] = none
last_spec (x ∷ []) = some x
last_spec (x ∷ y ∷ xs) = last_spec (y ∷ xs)

-- `built[n - 1] = b`
unfoldable pub set_last : Leg → List Leg → List Leg
set_last b [] = []
set_last b (l ∷ []) = b ∷ []
set_last b (l ∷ k ∷ ls) = l ∷ set_last b (k ∷ ls)

abbrev pub heights_of : List Leg → List ℕ
heights_of [] = []
heights_of (l ∷ ls) = l.last_valid_block_height ∷ heights_of ls

-- `txs.iter().map(|t| t.creates_atas.len() as u8).sum()`
abbrev pub created_atas : {Tx : Type 0} → List (AssembledTx Tx) → ℕ
created_atas [] = 0
created_atas (t ∷ ts) = (length t.creates_atas + created_atas ts) % 2 ^ 8

abbrev pub skipped_as : SkipReason → Opportunity → Opportunity
skipped_as r o = record o { status = OppStatus.skipped r }

abbrev pub is_bundle : PlanKind → Bool
is_bundle PlanKind.bundle = true
is_bundle PlanKind.single_tx = false

module _ {W Tx : Type 0} (c : PipelineConfig Tx) (s : Surroundings W Tx) (m : Simulator W Tx)
    (b : Builder W Tx) where
  abbrev pub input_for : ℕ → CandidatePlan → List Leg → TxShape → ℕ → W → PricingInput
  input_for id plan legs shape atas w = record {
    id = id;
    plan = plan;
    legs = legs;
    now = s.now w;
    slot = s.slot w;
    sol_price = s.sol_price w;
    base_decimals = m.base_decimals;
    shape = shape;
    atas_to_create = atas;
  }

  abbrev pub price_legs : ℕ → CandidatePlan → List Leg → TxShape → ℕ → W → Option Opportunity
  price_legs id plan legs shape atas w =
      price (input_for id plan legs shape atas w) (env_at c s m w)

  -- What `protect` hands on: the opportunity, its legs, and the world.
  abbrev pub Kept : Type 0
  Kept = Option (Opportunity × List Leg × W)

  -- What follows the second quote of the last leg.
  unfoldable pub requoted : CandidatePlan → Opportunity → List Leg → ℕ → Requote → W → Kept
  unfolding set_last
  requoted plan o legs required (built l) w =
      if leb required l.min_out
      then (do
        let legs' = set_last l legs
        o' ← price_legs o.id plan legs' (bundle 1) 0 w
        some (o', legs', w))
      else some (skipped_as SkipReason.slippage o, legs, w)
  requoted plan o legs required rate_limited w =
      some (skipped_as SkipReason.rate_limited o, legs, w)
  requoted plan o legs required other_error w = some (skipped_as SkipReason.build_failed o, legs, w)

  -- The last leg is asked for again if its slippage is over what is required.
  unfoldable pub tightened : CandidatePlan → Opportunity → List Leg → Leg → ℕ → ℕ → W → Kept
  tightened plan o legs last required bps w =
      if leb last.slippage_bps bps
      then some (o, legs, w)
      else (last_spec plan.legs >>= λ spec.
          let (answer, w') = b.requote spec last.in_amount bps w in
          requoted plan o legs required answer w')

  unfoldable pub protect : CandidatePlan → Opportunity → List Leg → W → Kept
  protect plan o legs w = elim (last_leg legs) [
    | none ↦ some (o, legs, w)
    | some last ↦
        let required = required_final_out o (m.thresholds w).guards in
        elim (protective_slippage_bps last.out_amount required) [
          | none ↦ some (skipped_as SkipReason.slippage o, legs, w)
          | some bps ↦ tightened plan o legs last required bps w
        ]
  ]

  -- A real candidate is protected, where the operator wants that.
  abbrev pub protected : CandidatePlan → Opportunity → List Leg → W → Kept
  protected plan o legs w =
      if is_quoted o.status && (m.thresholds w).protect_min_out
      then protect plan o legs w
      else some (o, legs, w)

  -- A new price never turns a skipped opportunity into a candidate.
  abbrev pub keep_skip : Opportunity → Opportunity → Opportunity
  keep_skip before o =
      if is_quoted before.status
      then o
      else if is_quoted o.status
      then record o { status = before.status }
      else o

  -- The price with the real shape and the accounts to create.
  unfoldable pub reshaped :
      CandidatePlan → Opportunity → PlanKind → List (AssembledTx Tx) → W → Option Opportunity
  reshaped plan o kind txs w =
      if is_bundle kind || ltb 0 (created_atas txs)
      then (price_legs o.id plan o.route.legs (shape_of kind (length txs)) (created_atas txs) w
          >>= λ o'. some (keep_skip o o'))
      else some o

  abbrev pub job_of :
      Opportunity → List Leg → PlanKind → List (AssembledTx Tx) → ℕ → Bool → Candidate Tx
  job_of o legs kind txs cu_price has_tip = record {
    job = record { opp = o; plan = kind; heights = heights_of legs };
    txs = txs;
    sim_cu_limit = max_compute_units_per_tx;
    sim_cu_price = cu_price;
    sim_tip = if has_tip then o.costs.jito_tip else 0;
    atas_to_create = created_atas txs;
  }

  abbrev pub Prepared : Type 0
  Prepared = Option (Opportunity × Option (Candidate Tx) × W)

  unfoldable pub packed :
      CandidatePlan → Opportunity → List Leg → (Assembly Tx × Bool) → W → Prepared
  packed plan o legs (refused size_limit, has_tip) w =
      let reason = if size_limit then SkipReason.tx_too_large else SkipReason.build_failed in
      some (if is_quoted o.status then skipped_as reason o else o, none, w)
  packed plan o legs (assembled kind txs, has_tip) w = do
    o' ← reshaped plan o kind txs w
    some (o', some (job_of o' legs kind txs o.costs.compute_unit_price_micro has_tip), w)

  unfoldable pub prepare : CandidatePlan → Opportunity → List Leg → W → Prepared
  prepare plan o legs w = do
    (o1, legs1, w1) ← protected plan o legs w
    let (answer, w2) = b.assemble o1 legs1 w1
    packed plan o1 legs1 answer w2

  unfoldable pub finish : ℕ → CandidatePlan → List Leg → W → Prepared
  finish id plan legs w = do o ← price_legs id plan legs (bundle 1) 0 w; prepare plan o legs w
