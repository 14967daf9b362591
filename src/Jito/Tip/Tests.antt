-- ===== src/Jito/Tip/Tests.antt =====
-- A share of the profit as a tip.
use mobius_searcher.Base.{◌≤◌, ◌<◌, ◌≡◌, ◌⊎◌, ◌↔◌, refl, true, none, arith}
use mobius_searcher.Base.Int.{pos, negsuc, max_ℤ, ◌≤ℤ◌}
use mobius_searcher.Core.Units.{jito_min_tip_lamports}
use mobius_searcher.Jito.Tip.{TipPolicyConfig, TipPolicyKind, raw_tip, quote}
use mobius_searcher.Jito.Tip.Bounds.{quote-bounds, quote-affordable}

abbrev half : TipPolicyConfig
half = record {
  kind = TipPolicyKind.profit_share;
  fixed_lamports = 10_000;
  percentile = "p50";
  profit_share_bps = 5_000;
  min_lamports = 1_000;
  max_lamports = 200_000;
}

quote-bounds_example :
    let q = quote half none (pos 1_000_000) in
    let raw = raw_tip half none (pos 1_000_000) in
    ((1_000 ≤ q.lamports) × (jito_min_tip_lamports ≤ q.lamports) × (q.lamports ≤ 200_000))
    × ((q.lamports ≡ raw)
        ⊎ (((raw < 1_000) × (q.lamports ≡ 1_000)) ⊎ ((200_000 < raw) × (q.lamports ≡ 200_000))))
    × ((q.capped ≡ true) ↔ (200_000 < raw))
quote-bounds_example = quote-bounds half none (pos 1_000_000)

-- After a loss, the smallest tip is all that is given.
quote-affordable_example : pos (quote half none (negsuc 4)).lamports ≤ℤ max_ℤ (negsuc 4) (pos 1_000)
quote-affordable_example = quote-affordable half none (negsuc 4) refl (omega arith)
