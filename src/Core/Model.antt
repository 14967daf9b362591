-- ===== src/Core/Model.antt =====
-- crates/core/src/model.rs: modes, opportunities, simulations and risk decisions. Legs and routes
-- are in Core/Route.antt.
use Prim.Native.String.{String}
use mobius_searcher.Base.{ℕ, ◌+◌, ◌%◌, ◌^◌, Bool, true, false, Option, none, some, List, [], ◌∷◌}
use mobius_searcher.Base.Int.{ℤ, pos, ◌-ℤ◌}
use mobius_searcher.Base.Words.{u64_max, wrap_i64}
use mobius_searcher.Core.Units.{UsdPrice}
use mobius_searcher.Core.Time.{Ts, age_ms}
use mobius_searcher.Core.Route.{Address, Route, oldest_quote}
use mobius_searcher.Core.Costs.{CostBreakdown}
use mobius_searcher.Core.Profit.{ProfitEval, GuardFailure}

pub data Mode : Type 0 where
  paper confirm live : Mode

-- `Mode::sends_transactions`
unfoldable pub sends_transactions : Mode → Bool
sends_transactions paper = false
sends_transactions confirm = true
sends_transactions live = true

pub data StrategyKind : Type 0 where
  round_trip cross_dex triangular : StrategyKind

pub data SkipReason : Type 0 where
  edge_too_small stale_quote sim_failed slippage tip_too_high risk_limit no_route : SkipReason
  build_failed rate_limited tx_too_large price_unavailable kill_switch sim_unavailable : SkipReason
  declined expired deposit inventory : SkipReason

pub data OppStatus : Type 0 where
  quoted : OppStatus
  skipped : SkipReason → OppStatus
  executable awaiting_confirm submitted paper_filled landed failed : OppStatus

-- `OppStatus::skip`
unfoldable pub skip : OppStatus → Option SkipReason
skip (skipped r) = some r
skip _ = none

-- `OppStatus::is_terminal`
unfoldable pub is_terminal : OppStatus → Bool
is_terminal (skipped _) = true
is_terminal paper_filled = true
is_terminal landed = true
is_terminal failed = true
is_terminal _ = false

pub data PlanKind : Type 0 where
  single_tx bundle : PlanKind

pub data SimFidelity : Type 0 where
  exact per_tx : SimFidelity

pub data SimFailureClass : Type 0 where
  insufficient_funds slippage_exceeded account_not_found blockhash_not_found : SimFailureClass
  compute_exceeded too_many_accounts tx_too_large program_error rpc_error : SimFailureClass
  depends_on_prior_tx unknown : SimFailureClass

pub record SimFailure : Type 0 where
  pub class : SimFailureClass
  pub tx_index : ℕ
  pub message : String

pub record TxSim : Type 0 where
  pub index : ℕ
  pub ok : Bool
  pub units_consumed : ℕ
  pub cu_limit : ℕ
  pub cu_price_micro : ℕ
  pub fee : Option ℕ
  pub size_bytes : ℕ
  pub accounts : ℕ
  pub logs : List String
  pub err : Option String
  pub taker_lamports : Option (ℕ × ℕ)
  pub leg_outputs : List ℕ
  pub created : List (Address × ℕ)

pub record SimulationResult : Type 0 where
  pub opportunity : ℕ
  pub plan : PlanKind
  pub fidelity : SimFidelity
  pub ok : Bool
  pub failure : Option SimFailure
  pub txs : List TxSim
  pub latency_ms : ℕ
  pub simulated_at : Ts
  pub context_slot : Option ℕ

abbrev wrapping_sum : (TxSim → ℕ) → ℕ → List TxSim → ℕ
wrapping_sum f acc [] = acc
wrapping_sum f acc (t ∷ ts) = wrapping_sum f ((acc + f t) % 2 ^ 32) ts

-- `SimulationResult::units_consumed` and `cu_limit`: u32 sums, which wrap.
pub units_consumed : SimulationResult → ℕ
units_consumed r = wrapping_sum (λ t. t.units_consumed) 0 r.txs

pub cu_limit : SimulationResult → ℕ
cu_limit r = wrapping_sum (λ t. t.cu_limit) 0 r.txs

-- The change of the taker's lamports in one transaction: `post as i64 - pre as i64`.
abbrev lamport_change : ℕ × ℕ → ℤ
lamport_change (pre, post) = wrap_i64 (wrap_i64 (pos post) -ℤ wrap_i64 (pos pre))

abbrev exact_delta : SimFidelity → List TxSim → Option ℤ
exact_delta exact (t ∷ []) = elim t.taker_lamports [
  | none ↦ none
  | some p ↦ some (lamport_change p)
]
exact_delta _ _ = none

-- `SimulationResult::taker_delta`: known only for one exactly simulated transaction.
unfoldable pub taker_delta : SimulationResult → Option ℤ
taker_delta r = exact_delta r.fidelity r.txs

pub data RiskViolation : Type 0 where
  kill_switch : RiskViolation
  trade_size : ℕ → ℕ → RiskViolation
  trade_pct_of_equity : ℤ → ℤ → RiskViolation
  daily_loss : ℤ → ℤ → RiskViolation
  consecutive_failures : ℕ → ℕ → RiskViolation
  slippage : ℕ → ℕ → RiskViolation
  quote_age : ℕ → ℕ → RiskViolation
  simulation_age : ℕ → ℕ → RiskViolation
  simulation_missing : RiskViolation
  priority_fee : ℕ → ℕ → RiskViolation
  jito_tip : ℕ → ℕ → RiskViolation
  wallet_sol_for_fees : ℕ → ℕ → RiskViolation
  open_executions : ℕ → ℕ → RiskViolation
  slot_stale : ℕ → ℕ → RiskViolation
  negative_expected_pnl : ℤ → RiskViolation
  inexact_simulation simulation_failed : RiskViolation

-- `RiskViolation::skip_reason`
unfoldable pub skip_reason : RiskViolation → SkipReason
skip_reason RiskViolation.kill_switch = SkipReason.kill_switch
skip_reason (RiskViolation.slippage _ _) = SkipReason.slippage
skip_reason (RiskViolation.quote_age _ _) = SkipReason.stale_quote
skip_reason (RiskViolation.simulation_age _ _) = SkipReason.stale_quote
skip_reason (RiskViolation.slot_stale _ _) = SkipReason.stale_quote
skip_reason (RiskViolation.jito_tip _ _) = SkipReason.tip_too_high
skip_reason (RiskViolation.negative_expected_pnl _) = SkipReason.edge_too_small
skip_reason RiskViolation.simulation_missing = SkipReason.sim_unavailable
skip_reason RiskViolation.simulation_failed = SkipReason.sim_failed
skip_reason _ = SkipReason.risk_limit

pub record RiskDecision : Type 0 where
  pub opportunity : ℕ
  pub approved : Bool
  pub violations : List RiskViolation
  pub checked_at : Ts

-- `RiskDecision::primary_skip`
unfoldable pub primary_skip : RiskDecision → Option SkipReason
unfolding skip_reason
primary_skip d = elim d.violations [ [] ↦ none | v ∷ vs ↦ some (skip_reason v) ]

pub record Opportunity : Type 0 where
  pub id : ℕ
  pub key : String
  pub strategy : StrategyKind
  pub label : String
  pub detected_at : Ts
  pub slot : Option ℕ
  pub base_mint : Address
  pub input : ℕ
  pub gross_output : ℕ
  pub route : Route
  pub costs : CostBreakdown
  pub eval : ProfitEval
  pub status : OppStatus
  pub updated_at : Ts
  pub sol_price : Option UsdPrice
  pub simulation : Option SimulationResult
  pub risk : Option RiskDecision
  pub guard : Option GuardFailure

-- `Opportunity::quote_age_ms`
unfoldable pub quote_age_ms : Opportunity → Ts → ℕ
unfolding oldest_quote age_ms
quote_age_ms o now = elim (oldest_quote o.route) [ none ↦ u64_max | some t ↦ age_ms t now ]
