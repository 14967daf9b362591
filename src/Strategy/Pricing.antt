-- ===== src/Strategy/Pricing.antt =====
-- crates/strategy/src/pricing.rs: from quoted legs to an opportunity with its costs, and again after
-- a simulation. The texts of the errors of `validate_chain` are constructors with the numbers that
-- the texts show. i64 differences wrap. `none` is the panic of `compute_costs`.
pub mod Chain
pub mod Quoted
pub mod Slippage
pub mod Shortfall
pub mod Samples
mod Tests
use mobius_searcher.Base.{
  ℕ, zero, suc, ◌+◌, ◌-◌, ◌*◌, ◌/◌, ◌%◌, ◌^◌, Bool, true, false, ◌&&◌, ◌||◌, Option, none, some,
  List, [], ◌∷◌, length, get_elem?, ltb, leb, ◌==◌, ◌!=◌, if◌then◌else◌, ◌>>=◌, min, max,
}
use mobius_searcher.Base.Int.{ℤ, pos, pos_part, ◌+ℤ◌, ◌-ℤ◌, ◌*ℤ◌, clamp_ℤ, quot}
use mobius_searcher.Base.Words.{u64_max, wrap_i64, wrap_i128, clamp_u64, i64_min, i64_max}
use mobius_searcher.Core.Units.{UsdPrice}
use mobius_searcher.Core.Time.{Ts}
use mobius_searcher.Core.Route.{Leg, Route, Address, address_eq}
use mobius_searcher.Core.Costs.{
  CostBreakdown, CostParams, CostInputs, TxShape, last_leg, total, compute_costs,
}
use mobius_searcher.Core.Profit.{
  ProfitEval, ProfitGuards, GuardFailure, GuardResult, ok, err, evaluate, check_guards,
}
use mobius_searcher.Core.Model.{SkipReason, OppStatus, Opportunity}
use mobius_searcher.Strategy.Plan.{LegSpec, CandidatePlan}

pub record TipInfo : Type 0 where
  pub lamports : ℕ
  pub capped : Bool

pub record PricingEnv : Type 0 where
  pub cost_params : CostParams
  pub guards : ProfitGuards
  pub tip : ℤ → TipInfo

pub record PricingInput : Type 0 where
  pub id : ℕ
  pub plan : CandidatePlan
  pub legs : List Leg
  pub now : Ts
  pub slot : Option ℕ
  pub sol_price : Option UsdPrice
  pub base_decimals : ℕ
  pub shape : TxShape
  pub atas_to_create : ℕ

pub data ChainError : Type 0 where
  legs_missing : ℕ → ℕ → ChainError
  first_input : ℕ → ℕ → ChainError
  mints_differ : ℕ → ChainError
  broken : ℕ → ℕ → ℕ → ChainError
  open_cycle : ChainError

-- The loop of `validate_chain` from leg `i` on, with the output of the leg before, if there is one.
pub check_legs : ℕ → Option ℕ → List Leg → List LegSpec → Option ChainError
check_legs i before [] _ = none
check_legs i before (l ∷ ls) [] = none
check_legs i before (l ∷ ls) (s ∷ ss) =
    let rest = check_legs (i + 1) (some l.out_amount) ls ss in
    let mints = address_eq l.input_mint s.input && address_eq l.output_mint s.output in
    if mints
    then elim before [
      | none ↦ rest
      | some o ↦ if l.in_amount == o then rest else some (broken i l.in_amount o)
    ]
    else some (mints_differ i)

abbrev pub closes_on : Address → Option Leg → Bool
closes_on base none = false
closes_on base (some l) = address_eq l.output_mint base

-- `validate_chain`: `none` is `Ok`.
unfoldable pub validate_chain : CandidatePlan → List Leg → Option ChainError
unfolding check_legs
validate_chain plan [] = some (legs_missing (length plan.legs) 0)
validate_chain plan (l ∷ ls) =
    if length (l ∷ ls) != length plan.legs
    then some (legs_missing (length plan.legs) (length (l ∷ ls)))
    else if l.in_amount != plan.amount
    then some (first_input l.in_amount plan.amount)
    else elim (check_legs 0 none (l ∷ ls) plan.legs) [
      | some e ↦ some e
      | none ↦ if closes_on plan.base_mint (last_leg (l ∷ ls)) then none else some open_cycle
    ]

abbrev pub guard_skip : GuardFailure → SkipReason
guard_skip GuardFailure.price_unavailable = SkipReason.price_unavailable
guard_skip _ = SkipReason.edge_too_small

-- `legs.iter().filter_map(|l| l.cu_price_micro).max().unwrap_or(0)`
abbrev pub top_cu_price : List Leg → ℕ
top_cu_price [] = 0
top_cu_price (l ∷ ls) = elim l.cu_price_micro [
  | none ↦ top_cu_price ls
  | some p ↦ max p (top_cu_price ls)
]

unfoldable pub costs_for :
    List Leg → ℕ → TxShape → Option (List ℕ) → ℕ → ℕ → CostParams → Option CostBreakdown
costs_for legs input shape cu_used tip atas p =
    compute_costs
      (record {
        legs = legs;
        input = input;
        shape = shape;
        cu_used = cu_used;
        cu_price_micro = top_cu_price legs;
        jito_tip = tip;
        atas_to_create = atas;
        platform_fee = 0;
      })
      p

-- `a as i64 - b as i64`
abbrev pub as_i64 : ℕ → ℤ
as_i64 n = wrap_i64 (pos n)

abbrev pub sub_i64 : ℤ → ℤ → ℤ
sub_i64 a b = wrap_i64 (a -ℤ b)

abbrev pub before_tip : ℕ → ℕ → CostBreakdown → ℤ
before_tip input gross_output costs =
    sub_i64 (sub_i64 (as_i64 gross_output) (as_i64 input)) (as_i64 (total costs))

abbrev pub failure_of : GuardResult → Option GuardFailure
failure_of ok = none
failure_of (err f) = some f

abbrev pub gross_output_of : List Leg → ℕ
gross_output_of legs = elim (last_leg legs) [ none ↦ 0 | some l ↦ l.out_amount ]

-- The status, after the chain: the deposit, the guards, and the cap of the tip, in this order.
unfoldable pub priced_status : CostBreakdown → CostParams → Option GuardFailure → Bool → OppStatus
priced_status costs p guard capped =
    if ltb p.max_new_deposit costs.ata_rent
    then OppStatus.skipped SkipReason.deposit
    else elim guard [
      | some g ↦ OppStatus.skipped (guard_skip g)
      | none ↦ if capped then OppStatus.skipped SkipReason.tip_too_high else OppStatus.quoted
    ]

unfoldable pub quote_status :
    Option ChainError → CostBreakdown → CostParams → Option GuardFailure → Bool → OppStatus
quote_status (some e) costs p guard capped = OppStatus.skipped SkipReason.build_failed
quote_status none costs p guard capped = priced_status costs p guard capped

-- The opportunity that `price` returns, at its tip and costs.
unfoldable pub quoted_opportunity :
    PricingInput → PricingEnv → TipInfo → CostBreakdown → Opportunity
quoted_opportunity inp env tip costs =
    let input = inp.plan.amount in
    let gross_output = gross_output_of inp.legs in
    let eval = evaluate input gross_output costs inp.base_decimals inp.sol_price in
    let guard = failure_of (check_guards eval input env.guards) in
    record {
      id = inp.id;
      key = inp.plan.key;
      strategy = inp.plan.strategy;
      label = inp.plan.label;
      detected_at = inp.now;
      slot = inp.slot;
      base_mint = inp.plan.base_mint;
      input = input;
      gross_output = gross_output;
      route = record { legs = inp.legs };
      costs = costs;
      eval = eval;
      status =
          quote_status (validate_chain inp.plan inp.legs) costs env.cost_params guard tip.capped;
      updated_at = inp.now;
      sol_price = inp.sol_price;
      simulation = none;
      risk = none;
      guard = guard;
    }

unfoldable pub price : PricingInput → PricingEnv → Option Opportunity
price inp env = do
  let input = inp.plan.amount
  let gross_output = gross_output_of inp.legs
  pre_tip ← costs_for inp.legs input inp.shape none 0 inp.atas_to_create env.cost_params
  let tip = env.tip (before_tip input gross_output pre_tip)
  costs ← costs_for inp.legs input inp.shape none tip.lamports inp.atas_to_create env.cost_params
  some (quoted_opportunity inp env tip costs)

abbrev pub with_deposits : CostBreakdown → Option ℕ → CostBreakdown
with_deposits c none = c
with_deposits c (some d) = record c { ata_rent = d }

-- What a simulation measured, less the slippage and the buffer that are still modelled.
abbrev pub measured_net : Option ℤ → CostBreakdown → Option ℤ
measured_net none c = none
measured_net (some d) c =
    some (sub_i64 (sub_i64 d (as_i64 c.expected_slippage)) (as_i64 c.safety_buffer))

unfoldable pub repriced :
    Opportunity → PricingEnv → TipInfo → CostBreakdown → Option ℤ → ℕ → Ts → Opportunity
repriced o env tip costs simulated_delta base_decimals now =
    let eval = record (evaluate o.input o.gross_output costs base_decimals o.sol_price) {
      simulated_net = measured_net simulated_delta costs;
    } in
    let guard = failure_of (check_guards eval o.input env.guards) in
    record o {
      costs = costs;
      eval = eval;
      updated_at = now;
      guard = guard;
      status = priced_status costs env.cost_params guard tip.capped;
    }

-- `reprice_after_simulation`
unfoldable pub reprice_after_simulation :
    Opportunity
    → TxShape
    → List ℕ
    → Option ℤ
    → Option ℕ
    → ℕ
    → PricingEnv
    → ℕ
    → Ts
    → Option Opportunity
reprice_after_simulation o shape cu_used simulated_delta deposits atas env base_decimals now = do
  let legs = o.route.legs
  pre_tip ← costs_for legs o.input shape (some cu_used) 0 atas env.cost_params
  let tip = env.tip (before_tip o.input o.gross_output pre_tip)
  costs ← costs_for legs o.input shape (some cu_used) tip.lamports atas env.cost_params
  some (repriced o env tip (with_deposits costs deposits) simulated_delta base_decimals now)

unfoldable pub protective_slippage_bps : ℕ → ℕ → Option ℕ
protective_slippage_bps final_out required =
    if final_out == 0 || ltb final_out required
    then none
    else some (min ((final_out - required) * 10_000 / final_out) 10_000)

-- `to_base`, on what is left of the route after leg `i`: the next leg is the first of it.
unfoldable pub to_base : List Leg → ℕ → ℤ → ℤ
to_base legs i amount = elim (get_elem? legs (i + 1)) [
  | none ↦ pos 0
  | some next ↦ elim (last_leg legs) [
    | none ↦ pos 0
    | some last ↦
        if next.in_amount == 0
        then pos 0
        else quot (wrap_i128 (amount *ℤ pos last.out_amount)) (pos next.in_amount)
  ]
]

-- The sum over the legs `i … i + n`, of a value of each, in i128.
abbrev pub sum_legs : (ℕ → ℤ) → ℕ → ℕ → ℤ → ℤ
sum_legs f i zero acc = acc
sum_legs f i (suc n) acc = sum_legs f (i + 1) n (wrap_i128 (acc +ℤ f i))

abbrev pub tolerance_of : List Leg → ℕ → ℕ
tolerance_of legs i = elim (get_elem? legs i) [ none ↦ 0 | some l ↦ l.out_amount - l.min_out ]

unfoldable pub intermediate_shortfall_value : List Leg → ℕ
intermediate_shortfall_value legs =
    clamp_u64
      (sum_legs (λ i. to_base legs i (pos (tolerance_of legs i))) 0 (length legs - 1) (pos 0))

unfoldable pub required_final_out : Opportunity → ProfitGuards → ℕ
required_final_out o g =
    let non_slippage = total o.costs - o.costs.expected_slippage in
    let shortfall = intermediate_shortfall_value o.route.legs in
    clamp_u64 (pos o.input +ℤ pos non_slippage +ℤ pos shortfall +ℤ g.min_profit_lamports)

-- The executed output of leg `i` less the input of the next one.
abbrev pub drift_of : List Leg → List ℕ → ℕ → ℤ
drift_of legs executed i = elim (get_elem? executed i) [
  | none ↦ pos 0
  | some e ↦ elim (get_elem? legs (i + 1)) [ none ↦ pos 0 | some l ↦ pos e -ℤ pos l.in_amount ]
]

unfoldable pub intermediate_drift_value : List Leg → List ℕ → Option ℤ
intermediate_drift_value legs executed =
    if ltb (length legs) 2
    then some (pos 0)
    else if ltb (length executed) (length legs - 1)
    then none
    else some (
        clamp_ℤ i64_min i64_max
          (sum_legs (λ i. to_base legs i (drift_of legs executed i)) 0 (length legs - 1) (pos 0)))
