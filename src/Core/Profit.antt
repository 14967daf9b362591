-- ===== src/Core/Profit.antt =====
-- crates/core/src/profit.rs: the profit of a priced cycle and the three guards it has to pass.
pub mod Guards
use mobius_searcher.Base.{
  ℕ, Bool, true, false, ◌&&◌, Option, none, some, ltb, leb, if◌then◌else◌, ◌>>=◌,
}
use mobius_searcher.Base.Int.{
  ℤ, pos, negsuc, pos_part, neg_part, ◌+ℤ◌, ◌-ℤ◌, ◌*ℤ◌, ltb_ℤ, leb_ℤ, min_ℤ, clamp_ℤ, quot,
}
use mobius_searcher.Base.Words.{i64_min, i64_max, wrap_i64}
use mobius_searcher.Core.Units.{Ppm, UsdMicros, UsdPrice, ratio, value}
use mobius_searcher.Core.Costs.{CostBreakdown, total}

pub record ProfitEval : Type 0 where
  pub gross_pnl : ℤ
  pub expected_net : ℤ
  pub gross_edge : Ppm
  pub net_edge : Ppm
  pub gross_usd : Option UsdMicros
  pub expected_net_usd : Option UsdMicros
  pub simulated_net : Option ℤ

-- `.unwrap_or(Ppm::ZERO)`
abbrev pub or_zero : Option Ppm → Ppm
or_zero none = pos 0
or_zero (some p) = p

abbrev pub clamp_i64 : ℤ → ℤ
clamp_i64 = clamp_ℤ i64_min i64_max

abbrev pub gross_of : ℕ → ℕ → ℤ
gross_of input gross_output = pos gross_output -ℤ pos input

abbrev pub net_of : ℕ → ℕ → CostBreakdown → ℤ
net_of input gross_output costs = gross_of input gross_output -ℤ pos (total costs)

unfoldable pub evaluate : ℕ → ℕ → CostBreakdown → ℕ → Option UsdPrice → ProfitEval
evaluate input gross_output costs base_decimals base_price =
    let gross = gross_of input gross_output in
    let net = net_of input gross_output costs in
    record {
      gross_pnl = clamp_i64 gross;
      expected_net = clamp_i64 net;
      gross_edge = or_zero (ratio gross (pos input));
      net_edge = or_zero (ratio net (pos input));
      gross_usd = base_price >>= λ p. value p gross base_decimals;
      expected_net_usd = base_price >>= λ p. value p net base_decimals;
      simulated_net = none;
    }

pub record ProfitGuards : Type 0 where
  pub min_profit_lamports : ℤ
  pub min_profit_edge : Ppm
  pub min_profit_usd : UsdMicros

pub data GuardFailure : Type 0 where
  lamports : ℤ → ℤ → GuardFailure
  edge : Ppm → Ppm → GuardFailure
  usd : UsdMicros → UsdMicros → GuardFailure
  price_unavailable : GuardFailure

pub data GuardResult : Type 0 where
  ok : GuardResult
  err : GuardFailure → GuardResult

-- The smaller of the simulated and the expected result.
abbrev pub chosen_net : ProfitEval → ℤ
chosen_net e = elim e.simulated_net [ none ↦ e.expected_net | some s ↦ min_ℤ s e.expected_net ]

-- The dollars of the chosen result: those of the expected one rescaled, in i128 and rounded towards
-- zero, then cast to i64.
unfoldable pub chosen_usd : ProfitEval → UsdMicros → UsdMicros
chosen_usd e u =
    if leb_ℤ e.expected_net (pos 0) && leb_ℤ (pos 0) e.expected_net
    then u
    else wrap_i64 (quot (u *ℤ chosen_net e) e.expected_net)

-- The third guard, tried only where a minimum in dollars is set.
usd_guard : ProfitEval → ProfitGuards → GuardResult
usd_guard e g =
    if ltb_ℤ (pos 0) g.min_profit_usd
    then elim e.expected_net_usd [
      | none ↦ err price_unavailable
      | some u ↦
          if ltb_ℤ (chosen_usd e u) g.min_profit_usd
          then err (usd (chosen_usd e u) g.min_profit_usd)
          else ok
    ]
    else ok

unfoldable pub check_guards : ProfitEval → ℕ → ProfitGuards → GuardResult
unfolding usd_guard
check_guards e input g =
    let net = chosen_net e in
    let net_edge = or_zero (ratio net (pos input)) in
    if ltb_ℤ net g.min_profit_lamports
    then err (lamports net g.min_profit_lamports)
    else if ltb_ℤ net_edge g.min_profit_edge
    then err (edge net_edge g.min_profit_edge)
    else usd_guard e g
