-- ===== src/Risk/Limits.antt =====
-- `RiskLimits::from_config` of crates/risk/src/lib.rs, with the section of the configuration that it
-- reads. The text of the daily loss is read by `parse_decimal`; the cast of the amount to i64 and
-- the product by 100 wrap, as the release build does.
mod Tests
use mobius_searcher.Base.{ℕ, ◌≡◌, refl, ap, ◌∙◌, List}
use mobius_searcher.Base.Int.{ℤ, pos, ◌*ℤ◌}
use mobius_searcher.Base.Words.{wrap_i64, InI64, wrap_i64-InI64}
use mobius_searcher.Core.Units.Text.{Parsed, ok, err, parse_decimal}
use mobius_searcher.Risk.{RiskLimits}

pub record RiskConfig : Type 0 where
  pub max_trade_lamports : ℕ
  pub max_trade_pct_of_equity_bps : ℤ
  pub max_daily_loss_usd : List ℕ
  pub max_consecutive_failures : ℕ
  pub max_slippage_bps : ℕ
  pub max_quote_age_ms : ℕ
  pub max_simulation_age_ms : ℕ
  pub max_priority_fee_lamports : ℕ
  pub max_jito_tip_lamports : ℕ
  pub min_wallet_sol_for_fees_lamports : ℕ
  pub max_open_executions : ℕ
  pub max_slot_lag : ℕ

-- The limits, with the two that are computed.
abbrev limits_with : RiskConfig → ℤ → ℤ → RiskLimits
limits_with c ppm loss = record {
  max_trade_lamports = c.max_trade_lamports;
  max_trade_pct_of_equity_ppm = ppm;
  max_daily_loss = loss;
  max_consecutive_failures = c.max_consecutive_failures;
  max_slippage_bps = c.max_slippage_bps;
  max_quote_age_ms = c.max_quote_age_ms;
  max_simulation_age_ms = c.max_simulation_age_ms;
  max_priority_fee_lamports = c.max_priority_fee_lamports;
  max_jito_tip_lamports = c.max_jito_tip_lamports;
  min_wallet_sol_for_fees_lamports = c.min_wallet_sol_for_fees_lamports;
  max_open_executions = c.max_open_executions;
  max_slot_lag = c.max_slot_lag;
}

abbrev limits_from : RiskConfig → Parsed ℕ → Parsed RiskLimits
limits_from c (ok n) =
    ok (limits_with c (wrap_i64 (c.max_trade_pct_of_equity_bps *ℤ pos 100)) (wrap_i64 (pos n)))
limits_from c (err e) = err e

unfoldable pub from_config : RiskConfig → Parsed RiskLimits
from_config c = limits_from c (parse_decimal c.max_daily_loss_usd 6)

-- Where the daily loss and the share fit an i64, they are the limits.
pub from_config-kept :
    (c : RiskConfig) (n : ℕ)
    → parse_decimal c.max_daily_loss_usd 6 ≡ ok n
    → InI64 (pos n)
    → InI64 (c.max_trade_pct_of_equity_bps *ℤ pos 100)
    → from_config c ≡ ok (limits_with c (c.max_trade_pct_of_equity_bps *ℤ pos 100) (pos n))
unfolding from_config
from_config-kept c n h small share =
    ap (limits_from c) h ∙ rw (wrap_i64-InI64 (pos n) small, wrap_i64-InI64 _ share) refl
