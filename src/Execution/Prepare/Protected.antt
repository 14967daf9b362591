-- ===== src/Execution/Prepare/Protected.antt =====
-- `finish` of crates/execution/src/pipeline.rs: what an opportunity that is still quoted after it
-- holds, and the floor under the output of its last leg.
use mobius_searcher.Base.{
  false, Bool-cases, ℕ, ◌-◌, ◌≤◌, [], ◌∷◌, ◌≡◌, sym, ap, subst, ◌∙◌, Bool, true, ◌&&◌, some, List,
  length, ltb, ◌||◌, >>=-eq-some, arith, IfSome, ◌⊎◌, inl, inr, if-eq,
}
use mobius_searcher.Base.Int.{ℤ, pos, ◌+ℤ◌, ◌≤ℤ◌}
use mobius_searcher.Base.Words.{u64_max, saturate, clamp_u64}
use mobius_searcher.Core.Route.{Leg}
use mobius_searcher.Core.Costs.{TxShape, bundle, last_leg}
use mobius_searcher.Core.Costs.Laws.{exact_total, total-exact}
use mobius_searcher.Core.Profit.{ProfitGuards}
use mobius_searcher.Core.Model.{PlanKind, OppStatus, Opportunity}
use mobius_searcher.Strategy.Plan.{CandidatePlan}
use mobius_searcher.Strategy.Pricing.{required_final_out, intermediate_shortfall_value}
use mobius_searcher.Strategy.Pricing.Quoted.{Sound}
use mobius_searcher.Strategy.Pricing.Shortfall.{Modest, shortfall, shortfall-value}
use mobius_searcher.Execution.Decide.{PipelineConfig, Surroundings}
use mobius_searcher.Execution.Simulate.{AssembledTx}
use mobius_searcher.Execution.Examine.{Candidate, Simulator, is_quoted, shape_of, env_at}
use mobius_searcher.Execution.Examine.Examined.{is_quoted-eq}
use mobius_searcher.Execution.Prepare.{
  Assembly, assembled, refused, Builder, created_atas, is_bundle, input_for, price_legs, protected,
  keep_skip, reshaped, packed, prepare, finish,
}
use mobius_searcher.Execution.Prepare.Safeguarded.{
  IsThreshold, Floor, Priced, price_legs-Priced, skipped-Priced, carried, protect-Safeguarded,
}

clamped_low : (z : ℤ) (n : ℕ) → clamp_u64 z ≤ n → (u64_max ≤ n) ⊎ (z ≤ℤ pos n)
clamped_low z n h = ground arith

-- A least output that pays for the input of a trade, its costs but for the slippage of the last leg
-- (the six costs, their sum cut at the top of u64, less the slippage), what the other legs may fall
-- short of, which is given, and a minimum profit.
abbrev pub PaysBack : Opportunity → ℕ → ℤ → ℕ → Type 0
PaysBack o short least n =
    pos o.input
      +ℤ pos (saturate u64_max (exact_total o.costs) - o.costs.expected_slippage)
      +ℤ pos short
      +ℤ least
    ≤ℤ pos n

-- The least output of the last leg pays all of this back, or is the largest u64.
abbrev pub Backed : Opportunity → ℕ → ℤ → List Leg → Type 0
Backed o short least legs =
    IfSome (λ (l : Leg). (u64_max ≤ l.min_out) ⊎ PaysBack o short least l.min_out) (last_leg legs)

required-PaysBack :
    (o : Opportunity) (g : ProfitGuards) (n : ℕ)
    → required_final_out o g ≤ n
    → (u64_max ≤ n) ⊎ PaysBack o (intermediate_shortfall_value o.route.legs) g.min_profit_lamports n
unfolding required_final_out
required-PaysBack o g n h = elim (clamped_low _ n h) [
  | inl full ↦ inl full
  | inr low ↦ inr (
      subst
        (λ t.
          pos o.input
            +ℤ pos (t - o.costs.expected_slippage)
            +ℤ pos (intermediate_shortfall_value o.route.legs)
            +ℤ g.min_profit_lamports
          ≤ℤ pos n)
        (total-exact o.costs).0 low)
]

Floor-Backed :
    (o : Opportunity) (g : ProfitGuards) (legs : List Leg)
    → Floor (required_final_out o g) legs
    → Backed o (intermediate_shortfall_value o.route.legs) g.min_profit_lamports legs
Floor-Backed o g [] h = tt
Floor-Backed o g (l ∷ []) h = required-PaysBack o g l.min_out h
Floor-Backed o g (l ∷ k ∷ ls) h = Floor-Backed o g (k ∷ ls) h

module _ {W Tx : Type 0} (c : PipelineConfig Tx) (s : Surroundings W Tx) (m : Simulator W Tx)
    (b : Builder W Tx)
    (least : (w : W) → pos 0 ≤ℤ (m.thresholds w).guards.min_profit_lamports) where
  -- The step before the assembly: whether it protects or not.
  protected-Safeguarded :
      (plan : CandidatePlan) (o : Opportunity) (legs : List Leg) (w w' : W) (o' : Opportunity)
      (legs' : List Leg)
      → Priced c s m b least plan o legs
      → IfSome IsThreshold (last_leg legs)
      → protected c s m b plan o legs w ≡ some (o', legs', w')
      → Priced c s m b least plan o' legs'
        × (o'.status ≡ OppStatus.quoted
            → (m.thresholds w).protect_min_out ≡ true
            → Floor (required_final_out o (m.thresholds w).guards) legs')
  protected-Safeguarded plan o legs w w' o' legs' p t h =
      let on = (m.thresholds w).protect_min_out in
      let required = required_final_out o (m.thresholds w).guards in
      elim (if-eq (is_quoted o.status && on) _ _ h) [
        | inl (_, k) ↦
            let (p', f) = protect-Safeguarded c s m b least plan o legs w w' o' legs' p t k in
            (p', λ q _. f q)
        | inr (off, k) ↦
            carried c s m b least
              (λ x y.
                Priced c s m b least plan x y
                × (x.status ≡ OppStatus.quoted → on ≡ true → Floor required y))
              o legs w (p, λ q want. absurd (let i = ap is_quoted q in ground arith)) k
      ]

  -- The opportunity is priced, and is a candidate only if `before` was one.
  abbrev Continues : CandidatePlan → Opportunity → List Leg → Opportunity → Type 0
  Continues plan before legs o =
      Priced c s m b least plan o legs
      × (o.status ≡ OppStatus.quoted → before.status ≡ OppStatus.quoted)

  keep_skip-Continues :
      (plan : CandidatePlan) (before o o' : Opportunity) (legs : List Leg)
      → Priced c s m b least plan o legs
      → keep_skip c s m b before o ≡ o'
      → Continues plan before legs o'
  keep_skip-Continues plan before o o' legs p h = elim (if-eq (is_quoted before.status) _ _ h) [
    | inl (was, k) ↦
        subst (λ x. Continues plan before legs x) k (p, λ _. is_quoted-eq before.status was)
    | inr (was, k) ↦ elim (if-eq (is_quoted o.status) _ _ k) [
      | inl (_, e) ↦
          subst (λ x. Continues plan before legs x) e
            (
              skipped-Priced c s m b least plan (record o { status = before.status }) legs
                  p.same_legs was,
              λ q. q,
            )
      | inr (new, e) ↦
          subst (λ x. Continues plan before legs x) e
            (p, λ q. absurd (let i = ap is_quoted q in ground arith))
    ]
  ]

  reshaped-Continues :
      (plan : CandidatePlan) (o : Opportunity) (kind : PlanKind) (txs : List (AssembledTx Tx))
      (w : W) (o' : Opportunity) (legs : List Leg)
      → Priced c s m b least plan o legs
      → reshaped c s m b plan o kind txs w ≡ some o'
      → Continues plan o legs o'
  unfolding reshaped
  reshaped-Continues plan o kind txs w o' legs p h =
      let shape = shape_of kind (length txs) in
      elim (if-eq (is_bundle kind || ltb 0 (created_atas txs)) _ _ h) [
        | inr (_, k) ↦ let q : o ≡ o' = cc in subst (λ x. Continues plan o legs x) q (p, λ i. i)
        | inl (_, k) ↦
            let (o1, e1, k1) =
              >>=-eq-some (price_legs c s m b o.id plan o.route.legs shape (created_atas txs) w) _
                k in
            let p1 =
              price_legs-Priced c s m b least o.id plan o.route.legs shape (created_atas txs) w o1
                e1 in
            let p2 = subst (λ x. Priced c s m b least plan o1 x) p.same_legs p1 in
            keep_skip-Continues plan o o1 o' legs p2 (cc)
      ]

  packed-Continues :
      (plan : CandidatePlan) (o : Opportunity) (legs : List Leg) (answer : Assembly Tx × Bool)
      (w w' : W) (o' : Opportunity) (cand : Candidate Tx)
      → Priced c s m b least plan o legs
      → packed c s m b plan o legs answer w ≡ some (o', some cand, w')
      → (cand.job.opp ≡ o') × Continues plan o legs o'
  unfolding packed
  packed-Continues plan o legs (refused size, tip) w w' o' cand p h = absurd (ground arith)
  packed-Continues plan o legs (assembled kind txs, tip) w w' o' cand p h =
      let (o1, e1, k1) = >>=-eq-some (reshaped c s m b plan o kind txs w) _ h in
      let q : o1 ≡ o' = ground arith in
      (
        ground arith,
        subst (λ x. Continues plan o legs x) q (reshaped-Continues plan o kind txs w o1 legs p e1),
      )

  -- With minimum profits that are not negative, where the last of the quoted legs has the least
  -- output that the quoting service documents, and where each product of a tolerance and the final
  -- output of these legs, and what the legs but the last may fall short of in all, fit an i128, a job for the simulator whose opportunity is
  -- reported as quoted carries that opportunity. It was priced, at the thresholds of some moment, as
  -- a chain of legs for its plan whose last output returns the input, the six costs of these legs,
  -- their sum cut at the top of u64, and the minimum profit, with the deposit within the limit; and
  -- if the operator wants the output protected, the least output of its last leg is the largest u64
  -- or pays back what was priced first: the input, the six costs cut in the same way less the
  -- slippage of the last leg, the tolerance of each other leg at the rate of the rest of the route,
  -- rounded down and their sum cut at the top of u64, and the minimum profit.
  pub finish-Protected :
      (id : ℕ) (plan : CandidatePlan) (legs : List Leg) (w w' : W) (o : Opportunity)
      (cand : Candidate Tx)
      → IfSome IsThreshold (last_leg legs)
      → Modest legs
      → finish c s m b id plan legs w ≡ some (o, some cand, w')
      → o.status ≡ OppStatus.quoted
      → (cand.job.opp ≡ o)
        × ((shape : TxShape) × (n : ℕ) × (atas : ℕ) × (v : W) × Sound
              (input_for c s m b n plan o.route.legs shape atas v)
              (env_at c s m v)
              o)
        × (((m.thresholds w).protect_min_out ≡ false)
            ⊎ ((first : Opportunity) × (price_legs c s m b id plan legs (bundle 1) 0 w ≡ some first)
                × Backed first
                    (shortfall legs)
                    (m.thresholds w).guards.min_profit_lamports
                    o.route.legs))
  unfolding finish prepare
  finish-Protected id plan legs w w' o cand t modest h q =
      let (first, e1, k1) = >>=-eq-some (price_legs c s m b id plan legs (bundle 1) 0 w) _ h in
      let p = price_legs-Priced c s m b least id plan legs (bundle 1) 0 w first e1 in
      let ((o1, legs1, w1), e2, k2) = >>=-eq-some (protected c s m b plan first legs w) _ k1 in
      let (p1, floor) = protected-Safeguarded plan first legs w w1 o1 legs1 p t e2 in
      let (answer, w2) = b.assemble o1 legs1 w1 in
      let (same, (p2, was)) = packed-Continues plan o1 legs1 answer w2 w' o cand p1 k2 in
      let (n, shape, atas, v, sound) = p2.sound q in
      let required = required_final_out first (m.thresholds w).guards in
      (
        same,
        (
          shape,
          n,
          atas,
          v,
          subst (λ x. Sound (input_for c s m b n plan x shape atas v) (env_at c s m v) o)
              (sym p2.same_legs) sound,
        ),
        elim (Bool-cases (m.thresholds w).protect_min_out) [
          | inr off ↦ inl off
          | inl want ↦
              let f = subst (λ x. Floor required x) (sym p2.same_legs) (floor (was q) want) in
              let least_profit = (m.thresholds w).guards.min_profit_lamports in
              let value =
                ap (λ x. intermediate_shortfall_value x) p.same_legs
                ∙ shortfall-value legs modest in
              inr (
                first,
                e1,
                subst (λ n. Backed first n least_profit o.route.legs) value
                    (Floor-Backed first (m.thresholds w).guards o.route.legs f),
              )
        ],
      )
