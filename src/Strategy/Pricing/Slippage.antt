-- ===== src/Strategy/Pricing/Slippage.antt =====
-- `protective_slippage_bps` of crates/strategy/src/pricing.rs: the slippage of the last leg that
-- still returns what is required.
use mobius_searcher.Base.{
  ℕ, ◌+◌, ◌-◌, ◌*◌, ◌/◌, ◌≤◌, ◌<◌, ◌≡◌, ◌↔◌, none, some, arith, ◌⊎◌, inl, inr, dec_lt, dec_le, ap,
  ◌∙◌,
}
use mobius_searcher.Strategy.Pricing.{protective_slippage_bps}

-- The largest slippage that returns at least what is required.
abbrev pub Tightest : ℕ → ℕ → ℕ → Type 0
Tightest final_out required bps =
    (bps ≤ 10_000)
    × (required * 10_000 ≤ final_out * (10_000 - bps))
    × ((b : ℕ) → b ≤ 10_000 → required * 10_000 ≤ final_out * (10_000 - b) → b ≤ bps)

-- A quotient, by products.
quotient_bounds : (a f : ℕ) → 0 < f → (f * (a / f) ≤ a) × (a < f * (a / f) + f)
quotient_bounds a f h = grind arith

times_below : (f b q : ℕ) → q < b → f * q + f ≤ f * b
times_below f b q h = grind arith

times_sum : (f d q : ℕ) → f * d + f * q ≡ f * (d + q)
times_sum f d q = grind arith

cut_product : (f q : ℕ) → q ≤ 10_000 → f * (10_000 - q) + f * q ≡ f * 10_000
cut_product f q h =
    let e : 10_000 - q + q ≡ 10_000 = omega arith in
    times_sum f (10_000 - q) q ∙ ap (λ (t : ℕ). f * t) e

-- What the slippage `b` gives up is at most what there is to give up.
within_slack :
    (f r b : ℕ) → r ≤ f → b ≤ 10_000 → (r * 10_000 ≤ f * (10_000 - b)) ↔ (f * b ≤ (f - r) * 10_000)
within_slack f r b le hb =
    (λ h. omega (arith, cut_product f b hb), λ h. omega (arith, cut_product f b hb))

quotient_le : (f r : ℕ) → 0 < f → r ≤ f → (f - r) * 10_000 / f ≤ 10_000
quotient_le f r h le = elim (dec_lt 10_000 ((f - r) * 10_000 / f)) [
  | yes big ↦ absurd (
      omega (
        arith,
        quotient_bounds ((f - r) * 10_000) f h,
        times_below f ((f - r) * 10_000 / f) 10_000 big,
      ))
  | no small ↦ omega arith
]

slack_Tightest : (f r : ℕ) → 0 < f → r ≤ f → Tightest f r ((f - r) * 10_000 / f)
slack_Tightest f r h le =
    let q = (f - r) * 10_000 / f in
    let top = quotient_le f r h le in
    let (low, high) = quotient_bounds ((f - r) * 10_000) f h in
    (
      top,
      (within_slack f r q le top).1 low,
      λ b hb k. elim (dec_lt q b) [
        | yes over ↦ absurd (omega (arith, (within_slack f r b le hb).0 k, times_below f b q over))
        | no kept ↦ omega arith
      ],
    )

-- `protective_slippage_bps` refuses exactly a quote that is nothing or less than what is required,
-- and otherwise gives the largest slippage, up to all of it, whose minimum is what is required.
pub protective_slippage-Tightest :
    (final_out required : ℕ)
    → ((protective_slippage_bps final_out required ≡ none)
        × ((final_out ≡ 0) ⊎ (final_out < required)))
      ⊎ ((bps : ℕ) × (protective_slippage_bps final_out required ≡ some bps)
          × (0 < final_out)
          × (required ≤ final_out)
          × Tightest final_out required bps)
unfolding protective_slippage_bps
protective_slippage-Tightest f r = elim (dec_lt 0 f) [
  | no none_left ↦ inl (ground arith, inl (omega arith))
  | yes some_left ↦ elim (dec_le r f) [
    | no short ↦ inl (ground arith, inr (omega arith))
    | yes enough ↦
        let t = slack_Tightest f r some_left enough in
        inr ((f - r) * 10_000 / f, ground (arith, t.0), some_left, enough, t)
  ]
]
