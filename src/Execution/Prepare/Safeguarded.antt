-- ===== src/Execution/Prepare/Safeguarded.antt =====
-- `protect` of crates/execution/src/pipeline.rs: the floor under the output of the last leg, and the
-- prices that an opportunity has.
use mobius_searcher.Base.{
  ℕ, ◌+◌, ◌-◌, ◌*◌, ◌≤◌, ◌≡◌, refl, sym, ap, subst, true, false, Option, none, some, List, [], ◌∷◌,
  leb, >>=-eq-some, arith, IfSome, inl, inr, Option-cases, if-eq, leb→le,
}
use mobius_searcher.Base.Int.{pos, ◌≤ℤ◌}
use mobius_searcher.Core.Route.{Leg}
use mobius_searcher.Core.Costs.{TxShape, bundle, last_leg}
use mobius_searcher.Core.Model.{SkipReason, OppStatus, Opportunity}
use mobius_searcher.Strategy.Plan.{CandidatePlan}
use mobius_searcher.Strategy.Pricing.{
  PricingEnv, PricingInput, costs_for, before_tip, gross_output_of, quoted_opportunity, price,
  required_final_out,
}
use mobius_searcher.Strategy.Pricing.Quoted.{Sound, price-Sound}
use mobius_searcher.Strategy.Pricing.Slippage.{Tightest, protective_slippage-Tightest}
use mobius_searcher.Execution.Decide.{PipelineConfig, Surroundings}
use mobius_searcher.Execution.Examine.{Simulator, is_quoted, env_at}
use mobius_searcher.Execution.Prepare.{
  Requote, built, rate_limited, other_error, Builder, last_spec, set_last, skipped_as, input_for,
  price_legs, requoted, tightened, protect,
}

-- The least output of a leg, as the quoting service documents it: its output less its slippage,
-- rounded down.
abbrev pub IsThreshold : Leg → Type 0
IsThreshold l = l.out_amount * (10_000 - l.slippage_bps) ≤ l.min_out * 10_000 + 9_999

abbrev pub Floor : ℕ → List Leg → Type 0
Floor required legs = IfSome (λ (l : Leg). required ≤ l.min_out) (last_leg legs)

slippage_mono : (out a b : ℕ) → a ≤ b → out * (10_000 - b) ≤ out * (10_000 - a)
slippage_mono out a b h = grind arith

-- A leg whose slippage is tight enough has the floor already.
tight_floor :
    (l : Leg) (required bps : ℕ)
    → IsThreshold l
    → Tightest l.out_amount required bps
    → l.slippage_bps ≤ bps
    → required ≤ l.min_out
tight_floor l required bps t k h =
    omega (arith, slippage_mono l.out_amount l.slippage_bps bps h, k.1)

last-skip :
    (k l k' : Leg) (ls : List Leg)
    → last_leg (k ∷ set_last l (k' ∷ ls)) ≡ last_leg (set_last l (k' ∷ ls))
unfolding set_last
last-skip k l k' [] = refl
last-skip k l k' (j ∷ ls) = refl

last-set_last :
    (P : Leg → Type 0) (l : Leg) (legs : List Leg) → P l → IfSome P (last_leg (set_last l legs))
unfolding set_last
last-set_last P l [] h = tt
last-set_last P l (k ∷ []) h = h
last-set_last P l (k ∷ k' ∷ ls) h =
    subst (λ x. IfSome P x) (sym (last-skip k l k' ls)) (last-set_last P l (k' ∷ ls) h)

price-legs :
    (inp : PricingInput) (env : PricingEnv) (o : Opportunity)
    → price inp env ≡ some o
    → o.route.legs ≡ inp.legs
unfolding price quoted_opportunity
price-legs inp env o h =
    let costs_at = λ (tip : ℕ).
      costs_for inp.legs inp.plan.amount inp.shape none tip inp.atas_to_create env.cost_params in
    let (pre, _, e1) = >>=-eq-some (costs_at 0) _ h in
    let tip = env.tip (before_tip inp.plan.amount (gross_output_of inp.legs) pre) in
    let (costs, _, e2) = >>=-eq-some (costs_at tip.lamports) _ e1 in
    let q : quoted_opportunity inp env tip costs ≡ o = cc in
    ap (λ (x : Opportunity). x.route.legs) (sym q)

module _ {W Tx : Type 0} (c : PipelineConfig Tx) (s : Surroundings W Tx) (m : Simulator W Tx)
    (b : Builder W Tx)
    (least : (w : W) → pos 0 ≤ℤ (m.thresholds w).guards.min_profit_lamports) where
  -- An opportunity as it was priced for the legs: at the thresholds of some world, if it is quoted.
  pub record Priced (plan : CandidatePlan) (o : Opportunity) (legs : List Leg) : Type 0 where
    pub same_legs : o.route.legs ≡ legs
    pub sound :
        o.status ≡ OppStatus.quoted
        → (id : ℕ) × (shape : TxShape) × (atas : ℕ) × (w : W) × Sound
            (input_for c s m b id plan legs shape atas w)
            (env_at c s m w)
            o

  pub price_legs-Priced :
      (id : ℕ) (plan : CandidatePlan) (legs : List Leg) (shape : TxShape) (atas : ℕ) (w : W)
      (o : Opportunity)
      → price_legs c s m b id plan legs shape atas w ≡ some o
      → Priced plan o legs
  price_legs-Priced id plan legs shape atas w o h =
      let inp = input_for c s m b id plan legs shape atas w in
      record {
        same_legs = price-legs inp (env_at c s m w) o h;
        sound = λ q. (id, shape, atas, w, price-Sound inp (env_at c s m w) o (least w) h q);
      }

  -- A skipped opportunity is priced for any legs that it has.
  pub skipped-Priced :
      (plan : CandidatePlan) (o : Opportunity) (legs : List Leg)
      → o.route.legs ≡ legs
      → is_quoted o.status ≡ false
      → Priced plan o legs
  skipped-Priced plan o legs e h = record {
    same_legs = e;
    sound = λ q. absurd (let k : is_quoted o.status ≡ true = ap is_quoted q in ground arith);
  }

  -- What `protect` hands on.
  abbrev pub Safeguarded : CandidatePlan → ℕ → Opportunity → List Leg → Type 0
  Safeguarded plan required o legs =
      Priced plan o legs × (o.status ≡ OppStatus.quoted → Floor required legs)

  not_quoted :
      (plan : CandidatePlan) (required : ℕ) (r : SkipReason) (o : Opportunity) (legs : List Leg)
      → o.route.legs ≡ legs
      → Safeguarded plan required (skipped_as r o) legs
  not_quoted plan required r o legs e =
      (skipped-Priced plan (skipped_as r o) legs e refl, λ q. absurd (ground arith))

  pub carried :
      (P : Opportunity → List Leg → Type 0) (o : Opportunity) (legs : List Leg) (w : W)
      {o' : Opportunity} {legs' : List Leg} {w' : W}
      → P o legs
      → ◌≡◌ {A = Option (Opportunity × List Leg × W)} (some (o, legs, w)) (some (o', legs', w'))
      → P o' legs'
  carried P o legs w {o'} {legs'} {w'} h e =
      let x : Opportunity × List Leg × W = (o, legs, w) in
      let y : Opportunity × List Leg × W = (o', legs', w') in
      let q : x ≡ y = cc in subst (λ (z : Opportunity × List Leg × W). P z.0 z.1) q h

  requoted-Safeguarded :
      (plan : CandidatePlan) (o : Opportunity) (legs : List Leg) (required : ℕ) (answer : Requote)
      (w w' : W) (o' : Opportunity) (legs' : List Leg)
      → o.route.legs ≡ legs
      → requoted c s m b plan o legs required answer w ≡ some (o', legs', w')
      → Safeguarded plan required o' legs'
  unfolding requoted
  requoted-Safeguarded plan o legs required (built l) w w' o' legs' e h =
      elim (if-eq (leb required l.min_out) _ _ h) [
        | inl (enough, k) ↦
            let next = set_last l legs in
            let (o1, e1, k1) = >>=-eq-some (price_legs c s m b o.id plan next (bundle 1) 0 w) _ k in
            let p = price_legs-Priced o.id plan next (bundle 1) 0 w o1 e1 in
            let f =
              last-set_last (λ (x : Leg). required ≤ x.min_out) l legs
                (leb→le required l.min_out enough) in
            carried (Safeguarded plan required) o1 next w (p, λ _. f) k1
        | inr (short, k) ↦
            carried (Safeguarded plan required) (skipped_as SkipReason.slippage o) legs w
              (not_quoted plan required SkipReason.slippage o legs e) k
      ]
  requoted-Safeguarded plan o legs required rate_limited w w' o' legs' e h =
      carried (Safeguarded plan required) (skipped_as SkipReason.rate_limited o) legs w
        (not_quoted plan required SkipReason.rate_limited o legs e) h
  requoted-Safeguarded plan o legs required other_error w w' o' legs' e h =
      carried (Safeguarded plan required) (skipped_as SkipReason.build_failed o) legs w
        (not_quoted plan required SkipReason.build_failed o legs e) h

  tightened-Safeguarded :
      (plan : CandidatePlan) (o : Opportunity) (legs : List Leg) (last : Leg) (required bps : ℕ)
      (w w' : W) (o' : Opportunity) (legs' : List Leg)
      → Priced plan o legs
      → last_leg legs ≡ some last
      → IsThreshold last
      → Tightest last.out_amount required bps
      → tightened c s m b plan o legs last required bps w ≡ some (o', legs', w')
      → Safeguarded plan required o' legs'
  unfolding tightened
  tightened-Safeguarded plan o legs last required bps w w' o' legs' p e t k h =
      elim (if-eq (leb last.slippage_bps bps) _ _ h) [
        | inl (tight, h') ↦
            let f = tight_floor last required bps t k (leb→le last.slippage_bps bps tight) in
            let floor : Floor required legs =
              subst (λ x. IfSome (λ (l : Leg). required ≤ l.min_out) x) (sym e) f in
            carried (Safeguarded plan required) o legs w (p, λ _. floor) h'
        | inr (wide, h') ↦
            let (spec, _, k1) = >>=-eq-some (last_spec plan.legs) _ h' in
            let (answer, v) = b.requote spec last.in_amount bps w in
            requoted-Safeguarded plan o legs required answer v w' o' legs' p.same_legs k1
      ]

  -- `protect`, at the requirement that it computes.
  pub protect-Safeguarded :
      (plan : CandidatePlan) (o : Opportunity) (legs : List Leg) (w w' : W) (o' : Opportunity)
      (legs' : List Leg)
      → Priced plan o legs
      → IfSome IsThreshold (last_leg legs)
      → protect c s m b plan o legs w ≡ some (o', legs', w')
      → Safeguarded plan (required_final_out o (m.thresholds w).guards) o' legs'
  unfolding protect
  protect-Safeguarded plan o legs w w' o' legs' p t h =
      let required = required_final_out o (m.thresholds w).guards in
      elim (Option-cases (last_leg legs)) [
        | inl none_left ↦
            let floor : Floor required legs = rw none_left tt in
            carried (Safeguarded plan required) o legs w (p, λ _. floor)
              (rw (none_left, protect) at h)
        | inr (last, e) ↦
            let h1 = rw (e, protect) at h in
            let t1 : IsThreshold last = rw e at t in
            elim (protective_slippage-Tightest last.out_amount required) [
              | inl (short, _) ↦
                  carried (Safeguarded plan required) (skipped_as SkipReason.slippage o) legs w
                    (not_quoted plan required SkipReason.slippage o legs p.same_legs)
                    (rw short at h1)
              | inr (bps, given, _, _, k) ↦
                  tightened-Safeguarded plan o legs last required bps w w' o' legs' p e t1 k
                    (rw given at h1)
            ]
      ]
