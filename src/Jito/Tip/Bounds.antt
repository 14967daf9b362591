-- ===== src/Jito/Tip/Bounds.antt =====
-- What a quoted tip can be.
use mobius_searcher.Base.{ℕ, ◌*◌, ◌/◌, ◌≤◌, ◌<◌, ◌≡◌, ◌↔◌, true, Option, max, arith, ◌⊎◌}
use mobius_searcher.Base.Int.{ℤ, pos, negsuc, max_ℤ, ◌≤ℤ◌}
use mobius_searcher.Core.Units.{jito_min_tip_lamports}
use mobius_searcher.Jito.Tip.{TipPolicyConfig, TipPolicyKind, TipFloor, raw_tip, quote}

-- A tip is at least the configured minimum and the network's, and at most the configured maximum,
-- or the smallest tip where that is more. It is what the policy wants, the smallest tip where the
-- policy wants less than that, or the largest where it wants more. It is marked as capped exactly
-- when the policy wants more than the configured maximum.
pub quote-bounds :
    (c : TipPolicyConfig) (floor : Option TipFloor) (profit : ℤ)
    → let q = quote c floor profit in
      let raw = raw_tip c floor profit in
      let low = max c.min_lamports jito_min_tip_lamports in
      let high = max c.max_lamports low in
      ((c.min_lamports ≤ q.lamports) × (jito_min_tip_lamports ≤ q.lamports) × (q.lamports ≤ high))
      × ((q.lamports ≡ raw)
          ⊎ (((raw < low) × (q.lamports ≡ low)) ⊎ ((high < raw) × (q.lamports ≡ high))))
      × ((q.capped ≡ true) ↔ (c.max_lamports < raw))
unfolding quote
quote-bounds c floor profit = (
  (ground arith, ground arith, ground arith),
  ground arith,
  (λ h. ground arith, λ h. ground arith),
)

share_bound : (p b : ℕ) → b ≤ 10_000 → p * b / 10_000 ≤ p
share_bound p b h = let le : p * b ≤ p * 10_000 = grind arith in omega arith

-- A tip that is a share of the profit, of at most all of it, is no more than the profit, or than the
-- smallest tip where the profit is less than that or is a loss.
pub quote-affordable :
    (c : TipPolicyConfig) (floor : Option TipFloor) (profit : ℤ)
    → c.kind ≡ TipPolicyKind.profit_share
    → c.profit_share_bps ≤ 10_000
    → pos (quote c floor profit).lamports
      ≤ℤ max_ℤ profit (pos (max c.min_lamports jito_min_tip_lamports))
unfolding quote raw_tip
quote-affordable c floor (pos p) k h =
    let s = share_bound p c.profit_share_bps h in rw k (ground arith)
quote-affordable c floor (negsuc n) k h = rw k (ground arith)
