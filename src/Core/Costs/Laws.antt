-- ===== src/Core/Costs/Laws.antt =====
-- What the cost model of costs.rs adds up to, and what it bounds.
use native.Mathlib.Nat.{zero-add}
use mobius_searcher.Base.{
  ℕ, ◌+◌, ◌-◌, ◌*◌, ◌≤◌, ◌≡◌, refl, ap, ◌∙◌, some, List, [], ◌∷◌, arith, All, length, max, min,
}
use mobius_searcher.Base.Int.{pos_part}
use mobius_searcher.Base.Words.{u8_max, u32_max, u64_max, saturate, div_ceil}
use mobius_searcher.Core.Units.{
  Ppm, ppm_one, max_compute_units_per_tx, base_fee_lamports_per_signature,
}
use mobius_searcher.Core.Units.Rounding.{cu_limit-covers}
use mobius_searcher.Core.Route.{Leg}
use mobius_searcher.Core.Costs.{
  CostBreakdown, CostInputs, CostParams, CuLimits, simulated, total, landing_cost, last_leg,
  expected_slippage, margins, saturating_sum, cu_limits, breakdown, compute_costs,
}

-- The six parts that are subtracted from the gross result, with no cut.
abbrev pub exact_total : CostBreakdown → ℕ
exact_total c =
    c.base_fee + c.priority_fee + c.jito_tip + c.expected_slippage + c.safety_buffer
    + c.platform_fee

-- The total is the exact sum of the six parts, cut once at the top of u64, and it is no less than
-- what landing costs.
pub total-exact :
    (c : CostBreakdown) → (total c ≡ saturate u64_max (exact_total c)) × (landing_cost c ≤ total c)
unfolding total landing_cost
total-exact c = (ground arith, ground arith)

share_bounds :
    (t m : ℕ)
    → m ≤ ppm_one
    → (div_ceil (t * m) ppm_one ≤ t) × (t * m ≤ div_ceil (t * m) ppm_one * ppm_one)
share_bounds t m h = let le : t * m ≤ t * ppm_one = grind arith in (omega arith, omega arith)

-- The modelled slippage never exceeds the tolerance of the last leg, and covers its share of it.
pub expected_slippage-bounds :
    (legs : List Leg) (share : Ppm) (last : Leg)
    → last_leg legs ≡ some last
    → let tolerance = last.out_amount - last.min_out in
      (expected_slippage legs share ≤ tolerance)
      × (tolerance * min (pos_part share) ppm_one ≤ expected_slippage legs share * ppm_one)
unfolding expected_slippage
expected_slippage-bounds legs share last e =
    rw (e, expected_slippage)
      (share_bounds (last.out_amount - last.min_out) (min (pos_part share) ppm_one) (omega arith))

abbrev pub sum : List ℕ → ℕ
sum [] = 0
sum (x ∷ xs) = x + sum xs

-- Cutting in every step is cutting once.
pub saturating_sum-exact :
    (top a : ℕ) (xs : List ℕ) → saturating_sum top (saturate top a) xs ≡ saturate top (a + sum xs)
unfolding saturating_sum
saturating_sum-exact top a [] = ground arith
saturating_sum-exact top a (x ∷ xs) =
    let e : saturate top (saturate top a + x) ≡ saturate top (a + x) = ground arith in
    rw (e, saturating_sum-exact top (a + x) xs) (ground arith)

pub sum-exact : (top : ℕ) (xs : List ℕ) → saturating_sum top 0 xs ≡ saturate top (sum xs)
sum-exact top xs =
    let z : saturate top 0 ≡ 0 = ground arith in
    let e : saturating_sum top (saturate top 0) xs ≡ saturate top (0 + sum xs) =
      saturating_sum-exact top 0 xs in
    rw z at e ∙ ap (λ (t : ℕ). saturate top t) (zero-add (sum xs))

abbrev pub Fits : List ℕ → Type 0
Fits = All (λ u. u ≤ max_compute_units_per_tx)

-- Every consumption gets a limit, and the limits cover the consumption.
margins-cover :
    (margin : Ppm) (us : List ℕ)
    → Fits us
    → (ls : List ℕ) × (margins margin us ≡ some ls) × (sum us ≤ sum ls) × (length ls ≡ length us)
unfolding margins
margins-cover margin [] h = ([], refl, omega arith, refl)
margins-cover margin (u ∷ us) (hu, h) =
    let (l, el, low, _, _) = cu_limit-covers u margin hu in
    let (ls, els, le, len) = margins-cover margin us h in
    (l ∷ ls, rw (el, els), omega arith, omega arith)

limits_cover :
    (inp : CostInputs) (p : CostParams) (n u : ℕ) (us : List ℕ)
    → inp.cu_used ≡ some (u ∷ us)
    → Fits (u ∷ us)
    → (l : CuLimits) × (cu_limits inp p n ≡ some l)
      × (l.source ≡ simulated)
      × (l.used ≡ some (saturate u32_max (sum (u ∷ us))))
      × (sum (u ∷ us) ≤ sum l.limits)
unfolding cu_limits
limits_cover inp p n u us e h =
    let (ls, els, le, _) = margins-cover p.cu_margin (u ∷ us) h in
    let used = saturating_sum u32_max 0 (u ∷ us) in
    (
      record { limits = ls; used = some used; source = simulated },
      rw (e, cu_limits, els),
      refl,
      ap some (sum-exact u32_max (u ∷ us)),
      le,
    )

-- With a consumption per transaction that a transaction can have, there are costs, they come from
-- the simulation, and the units requested cover the units consumed. The price paid for a unit is
-- at most the cap.
pub compute_costs-covers :
    (inp : CostInputs) (p : CostParams) (u : ℕ) (us : List ℕ)
    → inp.cu_used ≡ some (u ∷ us)
    → Fits (u ∷ us)
    → (c : CostBreakdown) × (used : ℕ) × (compute_costs inp p ≡ some c)
      × (c.source ≡ simulated)
      × (c.compute_units_used ≡ some used)
      × (used ≤ c.compute_units_limit)
      × (c.compute_unit_price_micro ≤ p.max_cu_price_micro)
      × (c.base_fee ≤ base_fee_lamports_per_signature * u8_max)
unfolding compute_costs breakdown
compute_costs-covers inp p u us e h =
    let (l, el, src, eu, le) = limits_cover inp p (max inp.shape.tx_count 1) u us e h in
    (
      breakdown inp p l,
      saturate u32_max (sum (u ∷ us)),
      rw (el, compute_costs),
      src,
      eu,
      rw (sum-exact u32_max l.limits) (ground arith),
      omega arith,
      ground arith,
    )
