-- ===== src/Strategy/Pricing/Quoted.antt =====
-- The opportunities that crates/strategy/src/pricing.rs leaves with the status `Quoted`.
use mobius_searcher.Base.{
  ℕ, ◌≤◌, ◌≡◌, refl, subst, Bool, false, Option, none, some, List, [], ◌∷◌, >>=-eq-some, arith,
  IfSome, ◌⊎◌, inl, inr,
}
use mobius_searcher.Base.Int.{ℤ, pos, ◌≤ℤ◌}
use mobius_searcher.Core.Time.{Ts}
use mobius_searcher.Core.Route.{Leg}
use mobius_searcher.Core.Costs.{
  CostBreakdown, CostParams, TxShape, last_leg, compute_costs, breakdown,
}
use mobius_searcher.Core.Costs.Consumed.{PaysFor, compute_costs-PaysFor}
use mobius_searcher.Core.Profit.{GuardFailure, GuardResult, ok, evaluate, check_guards}
use mobius_searcher.Core.Profit.Guards.{
  Repays, accepted_profit, expected_profit, check_guards-Passes,
}
use mobius_searcher.Core.Model.{OppStatus, Opportunity}
use mobius_searcher.Strategy.Pricing.{
  top_cu_price, ChainError, TipInfo, PricingEnv, PricingInput, validate_chain, costs_for,
  failure_of, priced_status, quote_status, quoted_opportunity, price, before_tip, gross_output_of,
  measured_net, repriced, reprice_after_simulation, with_deposits,
}
use mobius_searcher.Strategy.Pricing.Chain.{Carries, EndsIn, validate_chain-Carries}

no_failure : (r : GuardResult) → failure_of r ≡ none → r ≡ ok
no_failure GuardResult.ok h = refl
no_failure (GuardResult.err f) h = cc

priced_status-Quoted :
    (c : CostBreakdown) (p : CostParams) (g : Option GuardFailure) (capped : Bool)
    → priced_status c p g capped ≡ OppStatus.quoted
    → (c.ata_rent ≤ p.max_new_deposit) × (g ≡ none) × (capped ≡ false)
unfolding priced_status
priced_status-Quoted c p none capped h = (ground arith, refl, ground arith)
priced_status-Quoted c p (some g) capped h = absurd (ground arith)

quote_status-Quoted :
    (e : Option ChainError) (c : CostBreakdown) (p : CostParams) (g : Option GuardFailure)
    (capped : Bool)
    → quote_status e c p g capped ≡ OppStatus.quoted
    → (e ≡ none) × (priced_status c p g capped ≡ OppStatus.quoted)
unfolding quote_status
quote_status-Quoted none c p g capped h = (refl, h)
quote_status-Quoted (some e) c p g capped h = cc

-- The costs carry the tip that they were asked for.
costs_for-tip :
    (legs : List Leg) (input : ℕ) (shape : TxShape) (used : Option (List ℕ)) (tip atas : ℕ)
    (p : CostParams) {c : CostBreakdown}
    → costs_for legs input shape used tip atas p ≡ some c
    → c.jito_tip ≡ tip
unfolding costs_for compute_costs breakdown
costs_for-tip legs input shape used tip atas p h = ground arith

-- What the status of a new opportunity says of its parts.
quoted_parts :
    (inp : PricingInput) (env : PricingEnv) (tip : TipInfo) (costs : CostBreakdown)
    → (quoted_opportunity inp env tip costs).status ≡ OppStatus.quoted
    → (validate_chain inp.plan inp.legs ≡ none)
      × (costs.ata_rent ≤ env.cost_params.max_new_deposit)
      × (check_guards
            (evaluate inp.plan.amount
              (gross_output_of inp.legs)
              costs
              inp.base_decimals
              inp.sol_price)
            inp.plan.amount
            env.guards
          ≡ ok)
      × (tip.capped ≡ false)
unfolding quoted_opportunity
quoted_parts inp env tip costs h =
    let eval =
      evaluate inp.plan.amount (gross_output_of inp.legs) costs inp.base_decimals inp.sol_price in
    let result = check_guards eval inp.plan.amount env.guards in
    let (chain, priced) =
      quote_status-Quoted (validate_chain inp.plan inp.legs) costs env.cost_params
        (failure_of result) tip.capped h in
    let (deposit, passed, free) =
      priced_status-Quoted costs env.cost_params (failure_of result) tip.capped priced in
    (chain, deposit, no_failure result passed, free)

-- The costs of the legs, as they are quoted, with a tip.
abbrev pub Costed : PricingInput → PricingEnv → ℕ → CostBreakdown → Type 0
Costed inp env tip costs =
    compute_costs
      (record {
        legs = inp.legs;
        input = inp.plan.amount;
        shape = inp.shape;
        cu_used = none;
        cu_price_micro = top_cu_price inp.legs;
        jito_tip = tip;
        atas_to_create = inp.atas_to_create;
        platform_fee = 0;
      })
      env.cost_params
    ≡ some costs

-- What a quoted opportunity shows.
pub record Sound (inp : PricingInput) (env : PricingEnv) (o : Opportunity) : Type 0 where
  pub asked : (o.base_mint ≡ inp.plan.base_mint) × (o.input ≡ inp.plan.amount)
  pub carried : Carries o.input o.route.legs inp.plan.legs
  pub closed : EndsIn o.base_mint (last_leg o.route.legs)
  pub output : IfSome (λ (l : Leg). o.gross_output ≡ l.out_amount) (last_leg o.route.legs)
  pub deposit : o.costs.ata_rent ≤ env.cost_params.max_new_deposit
  pub tipped :
      (d : ℤ) × ((env.tip d).capped ≡ false)
      × (o.costs.jito_tip ≡ (env.tip d).lamports)
      × Costed inp env (env.tip d).lamports o.costs
  pub profit : Repays o.input o.costs env.guards.min_profit_lamports o.gross_output

last_output :
    (legs : List Leg) → IfSome (λ (l : Leg). gross_output_of legs ≡ l.out_amount) (last_leg legs)
last_output [] = tt
last_output (l ∷ []) = refl
last_output (l ∷ k ∷ ls) = last_output (k ∷ ls)

costs_for-Costed :
    (inp : PricingInput) (env : PricingEnv) (tip : ℕ) (costs : CostBreakdown)
    → costs_for inp.legs inp.plan.amount inp.shape none tip inp.atas_to_create env.cost_params
      ≡ some costs
    → Costed inp env tip costs
unfolding costs_for
costs_for-Costed inp env tip costs h = h

quoted-Sound :
    (inp : PricingInput) (env : PricingEnv) (d : ℤ) (costs : CostBreakdown)
    → pos 0 ≤ℤ env.guards.min_profit_lamports
    → costs.jito_tip ≡ (env.tip d).lamports
    → Costed inp env (env.tip d).lamports costs
    → (quoted_opportunity inp env (env.tip d) costs).status ≡ OppStatus.quoted
    → Sound inp env (quoted_opportunity inp env (env.tip d) costs)
unfolding quoted_opportunity
quoted-Sound inp env d costs m tip known st =
    let (chain, deposit, passed, free) = quoted_parts inp env (env.tip d) costs st in
    let c = (validate_chain-Carries inp.plan inp.legs).0 chain in
    let out = gross_output_of inp.legs in
    record {
      asked = (refl, refl);
      carried = c.0;
      closed = c.1;
      deposit = deposit;
      output = last_output inp.legs;
      tipped = (d, free, tip, known);
      profit =
          accepted_profit inp.plan.amount out inp.base_decimals costs inp.sol_price env.guards m
            passed;
    }

-- With a minimum profit that is not negative, an opportunity that `price` leaves as quoted has the
-- amount and the base mint of its plan and is a chain of legs for the requests of its plan that ends
-- in the base mint; its output is that of the last leg, its deposit is within the limit, its costs
-- are those of the legs with a tip of the policy that was not capped, and its output returns the
-- input, the base fee, the priority fee, the tip, the modelled slippage, the buffer and the platform
-- fee, their sum cut at the top of u64, and the minimum profit.
pub price-Sound :
    (inp : PricingInput) (env : PricingEnv) (o : Opportunity)
    → pos 0 ≤ℤ env.guards.min_profit_lamports
    → price inp env ≡ some o
    → o.status ≡ OppStatus.quoted
    → Sound inp env o
unfolding price
price-Sound inp env o m e st =
    let input = inp.plan.amount in
    let costs_at =
      λ (tip : ℕ). costs_for inp.legs input inp.shape none tip inp.atas_to_create env.cost_params in
    let (pre, _, e1) = >>=-eq-some (costs_at 0) _ e in
    let d = before_tip input (gross_output_of inp.legs) pre in
    let tip = (env.tip d).lamports in
    let (costs, ec, e2) = >>=-eq-some (costs_at tip) _ e1 in
    let eo : quoted_opportunity inp env (env.tip d) costs ≡ o = cc in
    let t = costs_for-tip inp.legs input inp.shape none tip inp.atas_to_create env.cost_params ec in
    subst (λ x. x.status ≡ OppStatus.quoted → Sound inp env x) eo
      (quoted-Sound inp env d costs m t (costs_for-Costed inp env tip costs ec)) st

-- What an opportunity that is still quoted after a simulation shows.
pub record StillSound (o : Opportunity) (used : List ℕ) (delta : Option ℤ) (env : PricingEnv)
    (o' : Opportunity) : Type 0 where
  pub same_trade : (o'.input ≡ o.input) × (o'.gross_output ≡ o.gross_output) × (o'.route ≡ o.route)
  pub deposit : o'.costs.ata_rent ≤ env.cost_params.max_new_deposit
  pub consumption : (used ≡ []) ⊎ PaysFor used o'.costs
  pub modelled : Repays o.input o'.costs env.guards.min_profit_lamports o.gross_output
  pub measured : IfSome (λ net. env.guards.min_profit_lamports ≤ℤ net) (measured_net delta o'.costs)

-- The costs with a known consumption pay for it, at the deposits that were measured too.
costs_for-PaysFor :
    (legs : List Leg) (input : ℕ) (shape : TxShape) (used : List ℕ) (tip atas : ℕ) (p : CostParams)
    (deposits : Option ℕ) {c : CostBreakdown}
    → costs_for legs input shape (some used) tip atas p ≡ some c
    → (used ≡ []) ⊎ PaysFor used (with_deposits c deposits)
unfolding costs_for
costs_for-PaysFor legs input shape [] tip atas p deposits h = inl refl
costs_for-PaysFor legs input shape (u ∷ us) tip atas p none {c} h =
    inr (compute_costs-PaysFor _ p (u ∷ us) c refl (λ e. cc) h)
costs_for-PaysFor legs input shape (u ∷ us) tip atas p (some d) {c} h =
    let f = compute_costs-PaysFor _ p (u ∷ us) c refl (λ e. cc) h in
    inr (record {
      simulated = f.simulated;
      on_record = f.on_record;
      requested = f.requested;
      paid = f.paid;
    })

repriced-StillSound :
    (o : Opportunity) (env : PricingEnv) (tip : TipInfo) (costs : CostBreakdown) (used : List ℕ)
    (delta : Option ℤ) (decimals : ℕ) (now : Ts)
    → (used ≡ []) ⊎ PaysFor used costs
    → pos 0 ≤ℤ env.guards.min_profit_lamports
    → (repriced o env tip costs delta decimals now).status ≡ OppStatus.quoted
    → StillSound o used delta env (repriced o env tip costs delta decimals now)
unfolding repriced
repriced-StillSound o env tip costs used delta decimals now paid m st =
    let base = evaluate o.input o.gross_output costs decimals o.sol_price in
    let eval = record base { simulated_net = measured_net delta costs } in
    let result = check_guards eval o.input env.guards in
    let (deposit, passed, free) =
      priced_status-Quoted costs env.cost_params (failure_of result) tip.capped st in
    let p = (check_guards-Passes eval o.input env.guards).0 (no_failure result passed) in
    record {
      same_trade = (refl, refl, refl);
      deposit = deposit;
      consumption = paid;
      modelled =
          expected_profit o.input o.gross_output decimals costs o.sol_price
            env.guards.min_profit_lamports m p.expected;
      measured = p.verified;
    }

-- With a minimum profit that is not negative, an opportunity that is still quoted after its
-- simulation is for the same input, output and route, and its deposit is within the limit. If units
-- were measured, its costs record them, request at least them, and pay for them at the price of a
-- unit, up to the largest u64. Its output returns the input, the six costs, their sum cut at the top
-- of u64, and the minimum profit, and the measured change of the balance, if there is one, less the
-- modelled slippage and the buffer, is at least the minimum profit.
pub reprice-StillSound :
    (o : Opportunity) (shape : TxShape) (cu_used : List ℕ) (delta : Option ℤ) (deposits : Option ℕ)
    (atas : ℕ) (env : PricingEnv) (decimals : ℕ) (now : Ts) (o' : Opportunity)
    → pos 0 ≤ℤ env.guards.min_profit_lamports
    → reprice_after_simulation o shape cu_used delta deposits atas env decimals now ≡ some o'
    → o'.status ≡ OppStatus.quoted
    → StillSound o cu_used delta env o'
unfolding reprice_after_simulation
reprice-StillSound o shape cu_used delta deposits atas env decimals now o' m e st =
    let costs_at =
      λ (tip : ℕ). costs_for o.route.legs o.input shape (some cu_used) tip atas env.cost_params in
    let (pre, _, e1) = >>=-eq-some (costs_at 0) _ e in
    let tip = env.tip (before_tip o.input o.gross_output pre) in
    let (costs, ec, e2) = >>=-eq-some (costs_at tip.lamports) _ e1 in
    let known = with_deposits costs deposits in
    let eo : repriced o env tip known delta decimals now ≡ o' = cc in
    subst (λ x. x.status ≡ OppStatus.quoted → StillSound o cu_used delta env x) eo
      (repriced-StillSound o env tip known cu_used delta decimals now
        (costs_for-PaysFor o.route.legs o.input shape cu_used tip.lamports atas env.cost_params
          deposits ec)
        m)
      st
