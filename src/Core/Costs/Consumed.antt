-- ===== src/Core/Costs/Consumed.antt =====
-- The costs of costs.rs with the compute units that a simulation consumed.
use mobius_searcher.Base.{
  ℕ, ◌+◌, ◌*◌, ◌≤◌, ◌≡◌, ◌≢◌, refl, ap, subst, ◌∙◌, some, List, [], ◌∷◌, arith, map, ◌⊎◌, inl, inr,
  >>=-eq-some, max, min, leb, Bool-cases,
}
use mobius_searcher.Base.Words.{u32_max, u64_max, saturate}
use mobius_searcher.Core.Units.{
  Ppm, cu_limit_with_margin, priority_fee_lamports, micro_lamports_per_lamport,
}
use mobius_searcher.Core.Units.Rounding.{cu_limit-low, priority_fee-ceil}
use mobius_searcher.Core.Costs.{
  CostBreakdown, CostInputs, CostParams, CuLimits, simulated, margins, saturating_sum, cu_limits,
  breakdown, compute_costs,
}
use mobius_searcher.Core.Costs.Laws.{sum, sum-exact}

sums_cover : (margin : Ppm) (us ls : List ℕ) → margins margin us ≡ some ls → sum us ≤ sum ls
unfolding margins
sums_cover margin [] ls h = omega arith
sums_cover margin (u ∷ us) ls h =
    let (l, el, h1) = >>=-eq-some (cu_limit_with_margin u margin) _ h in
    let (rest, er, h2) = >>=-eq-some (margins margin us) _ h1 in
    let ih = sums_cover margin us rest er in
    let low = cu_limit-low u margin l el in
    let q : (l ∷ rest) ≡ ls = cc in subst (λ x. sum (u ∷ us) ≤ sum x) q (omega arith)

both_cover :
    (a b f g p m top : ℕ)
    → ((f ≡ top) ⊎ (a * p ≤ f * m))
    → ((top ≤ g) ⊎ (b * p ≤ g * m))
    → (top ≤ f + g) ⊎ ((a + b) * p ≤ (f + g) * m)
both_cover a b f g p m top (inl full) k = inl (omega arith)
both_cover a b f g p m top (inr h) (inl full) = inl (omega arith)
both_cover a b f g p m top (inr h) (inr k) = inr (grind arith)

-- The fees of the transactions pay for the limits at the price.
fees_cover :
    (price : ℕ) (ls : List ℕ)
    → (u64_max ≤ sum (map (λ l. priority_fee_lamports l price) ls))
      ⊎ (sum ls * price
          ≤ sum (map (λ l. priority_fee_lamports l price) ls) * micro_lamports_per_lamport)
fees_cover price [] = inr (omega arith)
fees_cover price (l ∷ ls) =
    let fees = sum (map (λ x. priority_fee_lamports x price) ls) in
    let (_, _, one) = priority_fee-ceil l price in
    both_cover l (sum ls) (priority_fee_lamports l price) fees price micro_lamports_per_lamport
      u64_max one (fees_cover price ls)

-- Costs that are about a given consumption, per transaction, and that pay for it: the units consumed
-- are on record, the units requested cover them, and the priority fee pays for at least these units
-- at the price of a unit, or is the largest u64.
pub record PaysFor (used : List ℕ) (c : CostBreakdown) : Type 0 where
  pub simulated : c.source ≡ simulated
  pub on_record : c.compute_units_used ≡ some (saturate u32_max (sum used))
  pub requested : saturate u32_max (sum used) ≤ c.compute_units_limit
  pub paid :
      (c.priority_fee ≡ u64_max)
      ⊎ (sum used * c.compute_unit_price_micro ≤ c.priority_fee * micro_lamports_per_lamport)

pay_more :
    (used limits fees price m top : ℕ)
    → used ≤ limits
    → ((top ≤ fees) ⊎ (limits * price ≤ fees * m))
    → (saturate top fees ≡ top) ⊎ (used * price ≤ saturate top fees * m)
pay_more used limits fees price m top le (inl full) = inl (ground arith)
pay_more used limits fees price m top le (inr h) =
    let more : used * price ≤ limits * price = grind arith in
    elim (Bool-cases (leb fees top)) [
      | inl fits ↦ inr (rw fits (omega (arith, more, h)))
      | inr cut ↦ inl (rw cut refl)
    ]

breakdown-PaysFor :
    (inp : CostInputs) (p : CostParams) (us ls : List ℕ)
    → sum us ≤ sum ls
    → PaysFor us (
        breakdown inp p
          (record { limits = ls; used = some (saturating_sum u32_max 0 us); source = simulated }))
unfolding breakdown
breakdown-PaysFor inp p us ls le =
    let price = min inp.cu_price_micro p.max_cu_price_micro in
    let fees = map (λ l. priority_fee_lamports l price) ls in
    record {
      simulated = refl;
      on_record = ap some (sum-exact u32_max us);
      requested = rw (sum-exact u32_max ls) (ground arith);
      paid = rw (sum-exact u64_max fees) (
          pay_more (sum us) (sum ls) (sum fees) price micro_lamports_per_lamport u64_max le
            (fees_cover price ls));
    }

-- Costs that were computed with a consumption pay for it.
pub compute_costs-PaysFor :
    (inp : CostInputs) (p : CostParams) (us : List ℕ) (c : CostBreakdown)
    → inp.cu_used ≡ some us
    → us ≢ []
    → compute_costs inp p ≡ some c
    → PaysFor us c
unfolding compute_costs cu_limits
compute_costs-PaysFor inp p [] c e n h = absurd (n refl)
compute_costs-PaysFor inp p (u ∷ us) c e n h =
    let used = saturating_sum u32_max 0 (u ∷ us) in
    let (l, el, h1) = >>=-eq-some (cu_limits inp p (max inp.shape.tx_count 1)) _ h in
    let limited = rw (e, cu_limits) at el in
    let (ls, em, h2) = >>=-eq-some (margins p.cu_margin (u ∷ us)) _ limited in
    let at_limits : CuLimits = record { limits = ls; used = some used; source = simulated } in
    let q : at_limits ≡ l = cc in
    let k : breakdown inp p l ≡ c = cc in
    subst (λ x. PaysFor (u ∷ us) x) (ap (breakdown inp p) q ∙ k)
      (breakdown-PaysFor inp p (u ∷ us) ls (sums_cover p.cu_margin (u ∷ us) ls em))
