-- ===== src/Core/Profit/Guards.antt =====
-- What passing the guards of profit.rs means.
use mobius_searcher.Base.{
  ℕ, ◌+◌, ◌<◌, ◌≡◌, ◌↔◌, subst, Option, none, some, arith, Option-cases, Bool-cases, inl, inr, ◌⊎◌,
  IfSome,
}
use mobius_searcher.Base.Int.{
  ℤ, pos, ◌+ℤ◌, ◌*ℤ◌, ◌≤ℤ◌, ◌<ℤ◌, ltb_ℤ, min_ℤ, int_laws, ≤ℤ_trans, *ℤ_mono,
}
use mobius_searcher.Base.Words.{u64_max, saturate}
use mobius_searcher.Core.Units.{Ppm, UsdMicros, UsdPrice, ratio, ppm_one}
use mobius_searcher.Core.Units.Rounding.{ratio-IsFloor}
use mobius_searcher.Core.Costs.{CostBreakdown, total}
use mobius_searcher.Core.Costs.Laws.{exact_total, total-exact}
use mobius_searcher.Core.Profit.{
  ProfitEval, ProfitGuards, ok, evaluate, check_guards, usd_guard, chosen_net, chosen_usd, or_zero,
  net_of, clamp_i64,
}

-- A minimum in dollars, if there is one, is met by the chosen result at a known price.
abbrev pub Priced : ProfitEval → ProfitGuards → Type 0
Priced e g =
    (g.min_profit_usd ≤ℤ pos 0)
    ⊎ ((u : UsdMicros) × (e.expected_net_usd ≡ some u) × (g.min_profit_usd ≤ℤ chosen_usd e u))

-- What an accepted result has to show, as a trader would put it.
pub record Passes (e : ProfitEval) (input : ℕ) (g : ProfitGuards) : Type 0 where
  pub expected : g.min_profit_lamports ≤ℤ e.expected_net
  pub verified : IfSome (λ s. g.min_profit_lamports ≤ℤ s) e.simulated_net
  pub edge : g.min_profit_edge ≤ℤ or_zero (ratio (chosen_net e) (pos input))
  pub priced : Priced e g

min_passes :
    (m : ℤ) (e : ProfitEval)
    → (m ≤ℤ chosen_net e) ↔ ((m ≤ℤ e.expected_net) × IfSome (λ s. m ≤ℤ s) e.simulated_net)
min_passes m e = go e.simulated_net
  where
    go :
        (sim : Option ℤ)
        → (m ≤ℤ (elim sim [ none ↦ e.expected_net | some s ↦ min_ℤ s e.expected_net ]))
          ↔ ((m ≤ℤ e.expected_net) × IfSome (λ s. m ≤ℤ s) sim)
    go none = (λ h. (h, tt), λ h. h.0)
    go (some s) = (λ h. (ground arith, ground arith), λ h. ground arith)

usd_guard-Priced : (e : ProfitEval) (g : ProfitGuards) → (usd_guard e g ≡ ok) ↔ Priced e g
unfolding usd_guard
usd_guard-Priced e g = elim (Bool-cases (ltb_ℤ (pos 0) g.min_profit_usd)) [
  | inr unset ↦ (λ h. inl (ground arith), λ p. ground arith)
  | inl set ↦ elim (Option-cases e.expected_net_usd) [
    | inl absent ↦ (λ h. absurd (ground arith), λ p. ground arith)
    | inr (u, eu) ↦ (λ h. inr (u, eu, ground arith), λ p. ground arith)
  ]
]

-- The guards accept exactly the results that pass in lamports (expected and simulated), in edge,
-- and in dollars where a minimum in dollars is set.
pub check_guards-Passes :
    (e : ProfitEval) (input : ℕ) (g : ProfitGuards)
    → (check_guards e input g ≡ ok) ↔ Passes e input g
unfolding check_guards
check_guards-Passes e input g = (
  λ h.
      let low : g.min_profit_lamports ≤ℤ chosen_net e = ground arith in
      let (ex, ve) = (min_passes g.min_profit_lamports e).0 low in
      record {
        expected = ex;
        verified = ve;
        edge = ground arith;
        priced = (usd_guard-Priced e g).0 (ground arith);
      },
  λ p. ground (
    arith,
    (min_passes g.min_profit_lamports e).1 (p.expected, p.verified),
    (usd_guard-Priced e g).1 p.priced,
  ),
)

-- A lower bound on the clamped value bounds the value itself.
clamp_low : (m v : ℤ) → pos 0 ≤ℤ m → m ≤ℤ clamp_i64 v → (m ≤ℤ v) × (clamp_i64 v ≤ℤ v)
clamp_low m v h le = ground arith

-- An output returns an input, the six costs that are subtracted (the base fee, the priority fee, the
-- tip, the modelled slippage, the buffer and the platform fee, their sum cut at the top of u64), and
-- a minimum.
abbrev pub Repays : ℕ → CostBreakdown → ℤ → ℕ → Type 0
Repays input costs least gross_output =
    pos (input + saturate u64_max (exact_total costs)) +ℤ least ≤ℤ pos gross_output

net_bound :
    (input gross_output : ℕ) (costs : CostBreakdown) (m : ℤ)
    → m ≤ℤ net_of input gross_output costs
    → Repays input costs m gross_output
net_bound input gross_output costs m h =
    let b : pos (input + total costs) +ℤ m ≤ℤ pos gross_output = omega int_laws in
    subst (λ t. pos (input + t) +ℤ m ≤ℤ pos gross_output) (total-exact costs).0 b

-- A positive minimum edge is met by a ratio that was computed, so by the exact fraction.
edge_bound :
    (net : ℤ) (input : ℕ) (m : Ppm)
    → pos 0 <ℤ m
    → m ≤ℤ or_zero (ratio net (pos input))
    → (0 < input) × (m *ℤ pos input ≤ℤ net *ℤ pos ppm_one)
edge_bound net input m h le = elim (Option-cases (ratio net (pos input))) [
  | inl absent ↦ absurd (ground arith)
  | inr (q, eq) ↦
      let (d, (f, _), _) = ratio-IsFloor net (pos input) q eq in
      let mq : m ≤ℤ q = ground arith in
      (
        omega arith,
        ≤ℤ_trans (m *ℤ pos input) (q *ℤ pos input) (net *ℤ pos ppm_one) (*ℤ_mono m q input mq) f,
      )
]

-- An expected result that meets a minimum bounds the exact output.
pub expected_profit :
    (input gross_output decimals : ℕ) (costs : CostBreakdown) (price : Option UsdPrice) (m : ℤ)
    → pos 0 ≤ℤ m
    → m ≤ℤ (evaluate input gross_output costs decimals price).expected_net
    → Repays input costs m gross_output
unfolding evaluate
expected_profit input gross_output decimals costs price m h e =
    let (low, _) = clamp_low m (net_of input gross_output costs) h e in
    net_bound input gross_output costs m low

-- A cycle that was evaluated and then accepted returns its input, the sum of the base fee, the
-- priority fee, the tip, the modelled slippage, the buffer and the platform fee, cut at the top of
-- u64, and the minimum profit, where that is not negative.
pub accepted_profit :
    (input gross_output decimals : ℕ) (costs : CostBreakdown) (price : Option UsdPrice)
    (g : ProfitGuards)
    → pos 0 ≤ℤ g.min_profit_lamports
    → check_guards (evaluate input gross_output costs decimals price) input g ≡ ok
    → Repays input costs g.min_profit_lamports gross_output
accepted_profit input gross_output decimals costs price g h e =
    let p = (check_guards-Passes (evaluate input gross_output costs decimals price) input g).0 e in
    expected_profit input gross_output decimals costs price g.min_profit_lamports h p.expected

-- With a positive minimum edge too, the profit of an accepted cycle is at least that share of its
-- input.
pub accepted_edge :
    (input gross_output decimals : ℕ) (costs : CostBreakdown) (price : Option UsdPrice)
    (g : ProfitGuards)
    → pos 0 ≤ℤ g.min_profit_lamports
    → pos 0 <ℤ g.min_profit_edge
    → check_guards (evaluate input gross_output costs decimals price) input g ≡ ok
    → g.min_profit_edge *ℤ pos input ≤ℤ net_of input gross_output costs *ℤ pos ppm_one
unfolding evaluate
accepted_edge input gross_output decimals costs price g h m e =
    let net = net_of input gross_output costs in
    let p = (check_guards-Passes (evaluate input gross_output costs decimals price) input g).0 e in
    let (_, cut) = clamp_low g.min_profit_lamports net h p.expected in
    let (_, b) = edge_bound (clamp_i64 net) input g.min_profit_edge m p.edge in
    ≤ℤ_trans (g.min_profit_edge *ℤ pos input) (clamp_i64 net *ℤ pos ppm_one) (net *ℤ pos ppm_one) b
      (*ℤ_mono (clamp_i64 net) net ppm_one cut)
