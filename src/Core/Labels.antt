-- ===== src/Core/Labels.antt =====
-- crates/core/src/model.rs: the texts under which the enumerations are shown and stored.
use Prim.Native.String.{String}
use mobius_searcher.Core.Model.{Mode, StrategyKind, SkipReason, SimFailureClass, RiskViolation}
use mobius_searcher.Core.Records.{ServiceId, ServiceState}

-- `Mode::label`
abbrev pub mode_label : Mode → String
mode_label Mode.paper = "PAPER"
mode_label Mode.confirm = "CONFIRM"
mode_label Mode.live = "LIVE"

-- `StrategyKind::label`
abbrev pub strategy_label : StrategyKind → String
strategy_label StrategyKind.round_trip = "round-trip"
strategy_label StrategyKind.cross_dex = "cross-dex"
strategy_label StrategyKind.triangular = "triangular"

-- `SkipReason::code`
abbrev pub skip_code : SkipReason → String
skip_code SkipReason.edge_too_small = "EDGE_TOO_SMALL"
skip_code SkipReason.stale_quote = "STALE_QUOTE"
skip_code SkipReason.sim_failed = "SIM_FAILED"
skip_code SkipReason.slippage = "SLIPPAGE"
skip_code SkipReason.tip_too_high = "TIP_TOO_HIGH"
skip_code SkipReason.risk_limit = "RISK_LIMIT"
skip_code SkipReason.no_route = "NO_ROUTE"
skip_code SkipReason.build_failed = "BUILD_FAILED"
skip_code SkipReason.rate_limited = "RATE_LIMITED"
skip_code SkipReason.tx_too_large = "TX_TOO_LARGE"
skip_code SkipReason.price_unavailable = "PRICE_UNAVAILABLE"
skip_code SkipReason.kill_switch = "KILL_SWITCH"
skip_code SkipReason.sim_unavailable = "SIM_UNAVAILABLE"
skip_code SkipReason.declined = "DECLINED"
skip_code SkipReason.expired = "EXPIRED"
skip_code SkipReason.deposit = "DEPOSIT_TOO_HIGH"
skip_code SkipReason.inventory = "INVENTORY_LOW"

-- `SimFailureClass::label`
abbrev pub failure_label : SimFailureClass → String
failure_label SimFailureClass.insufficient_funds = "insufficient funds"
failure_label SimFailureClass.slippage_exceeded = "slippage exceeded"
failure_label SimFailureClass.account_not_found = "account not found"
failure_label SimFailureClass.blockhash_not_found = "blockhash not found"
failure_label SimFailureClass.compute_exceeded = "compute exceeded"
failure_label SimFailureClass.too_many_accounts = "too many accounts"
failure_label SimFailureClass.tx_too_large = "tx too large"
failure_label SimFailureClass.program_error = "program error"
failure_label SimFailureClass.rpc_error = "rpc error"
failure_label SimFailureClass.depends_on_prior_tx = "needs prior tx output (per-tx sim)"
failure_label SimFailureClass.unknown = "unknown"

-- `RiskViolation::code`
abbrev pub violation_code : RiskViolation → String
violation_code RiskViolation.kill_switch = "kill_switch"
violation_code (RiskViolation.trade_size _ _) = "max_trade_size"
violation_code (RiskViolation.trade_pct_of_equity _ _) = "max_trade_pct_of_equity"
violation_code (RiskViolation.daily_loss _ _) = "max_daily_loss"
violation_code (RiskViolation.consecutive_failures _ _) = "max_consecutive_failures"
violation_code (RiskViolation.slippage _ _) = "max_slippage"
violation_code (RiskViolation.quote_age _ _) = "max_quote_age_ms"
violation_code (RiskViolation.simulation_age _ _) = "max_simulation_age_ms"
violation_code RiskViolation.simulation_missing = "simulation_required"
violation_code (RiskViolation.priority_fee _ _) = "max_priority_fee"
violation_code (RiskViolation.jito_tip _ _) = "max_jito_tip"
violation_code (RiskViolation.wallet_sol_for_fees _ _) = "min_wallet_sol_for_fees"
violation_code (RiskViolation.open_executions _ _) = "max_open_execution"
violation_code (RiskViolation.slot_stale _ _) = "stale_slot"
violation_code (RiskViolation.negative_expected_pnl _) = "negative_expected_pnl"
violation_code RiskViolation.inexact_simulation = "exact_simulation_required"
violation_code RiskViolation.simulation_failed = "simulation_failed"

-- `ServiceId::label`
abbrev pub service_label : ServiceId → String
service_label ServiceId.jupiter = "Jupiter API"
service_label ServiceId.rpc = "RPC"
service_label ServiceId.web_socket = "WebSocket"
service_label ServiceId.jito = "Jito"
service_label ServiceId.db = "DB"
service_label ServiceId.market_feed = "Market feed"

-- `ServiceState::label`
abbrev pub state_label : ServiceState → String
state_label ServiceState.idle = "idle"
state_label ServiceState.ok = "ok"
state_label ServiceState.degraded = "degraded"
state_label ServiceState.rate_limited = "429 backoff"
state_label ServiceState.down = "down"
state_label ServiceState.disabled = "disabled"
