-- ===== src/Risk/Limits/Tests.antt =====
-- The limits that `RiskLimits::from_config` of crates/risk/src/lib.rs makes of a configuration.
use mobius_searcher.Base.{ℕ, ◌≡◌, refl, List}
use mobius_searcher.Base.Int.{ℤ, pos, negsuc}
use mobius_searcher.Base.Words.{wrap_i64}
use mobius_searcher.Base.Texts.{codes}
use mobius_searcher.Core.Units.Text.{Parsed, ok, err, parse_decimal}
use mobius_searcher.Risk.{RiskLimits}
use mobius_searcher.Risk.Limits.{RiskConfig, from_config}

abbrev config : List ℕ → RiskConfig
config loss = record {
  max_trade_lamports = 1_000_000_000;
  max_trade_pct_of_equity_bps = pos 2_500;
  max_daily_loss_usd = loss;
  max_consecutive_failures = 3;
  max_slippage_bps = 50;
  max_quote_age_ms = 1_500;
  max_simulation_age_ms = 2_000;
  max_priority_fee_lamports = 100_000;
  max_jito_tip_lamports = 1_000_000;
  min_wallet_sol_for_fees_lamports = 10_000_000;
  max_open_executions = 1;
  max_slot_lag = 20;
}

abbrev daily_loss : Parsed RiskLimits → ℤ
daily_loss (ok l) = l.max_daily_loss
daily_loss (err e) = pos 0

twenty_dollars : daily_loss (from_config (config (codes "20"))) ≡ pos 20_000_000
unfolding from_config parse_decimal wrap_i64
twenty_dollars = refl

-- Ten trillion dollars are a negative limit.
too_much :
    daily_loss (from_config (config (codes "10000000000000"))) ≡ negsuc 8_446_744_073_709_551_615
unfolding from_config parse_decimal wrap_i64
too_much = refl
