-- ===== src/Execution/Examine/Examined.antt =====
-- `simulate_job` of crates/execution/src/pipeline.rs: what an opportunity went through before the
-- risk decision, and with the decision, before anything is sent.
use mobius_searcher.Base.{
  ℕ, ◌≤◌, ◌≡◌, refl, sym, ap, subst, ◌∙◌, Bool, true, false, not, Option, none, some, List, [], map,
  length, ltb, >>=-eq-some, arith, IfSome, ◌⊎◌, inl, inr, Bool-cases, if-eq,
}
use mobius_searcher.Base.Int.{ℤ, pos, ◌≤ℤ◌}
use mobius_searcher.Core.Time.{Ts}
use mobius_searcher.Core.Costs.{TxShape, CostBreakdown}
use mobius_searcher.Core.Costs.Consumed.{PaysFor}
use mobius_searcher.Core.Profit.Guards.{Repays}
use mobius_searcher.Core.Model.{
  SkipReason, OppStatus, Opportunity, TxSim, SimulationResult, quote_age_ms,
}
use mobius_searcher.Risk.{roll_day}
use mobius_searcher.Risk.Approval.{Safe}
use mobius_searcher.Strategy.Pricing.{
  PricingEnv, measured_net, repriced, reprice_after_simulation, costs_for, with_deposits,
  before_tip,
}
use mobius_searcher.Strategy.Pricing.Quoted.{StillSound, reprice-StillSound}
use mobius_searcher.Execution.Decide.{PipelineConfig, Surroundings, Pipe, context, decide}
use mobius_searcher.Execution.Decide.Gate.{Quiet, Allowed, Gated, decide-Gated}
use mobius_searcher.Execution.Examine.{
  simulate_each, summary, Candidate, Balances, Simulator, is_quoted, shape_of, simulate_txs, env_at,
  delta_of, deposits_at, priced_again, measured, concluded_by, concluded, in_world, proceed,
  turned_away, examine, simulate_job,
}
use mobius_searcher.Execution.Examine.Simulated.{Clean, simulate_txs-Clean}

not_over : (a b : ℕ) → ltb a b ≡ false → b ≤ a
not_over a b h = ground arith

not-false : (b : Bool) → not b ≡ false → b ≡ true
not-false true h = refl
not-false false h = cc

pub is_quoted-eq : (s : OppStatus) → is_quoted s ≡ true → s ≡ OppStatus.quoted
is_quoted-eq OppStatus.quoted h = refl
is_quoted-eq (OppStatus.skipped r) h = cc
is_quoted-eq OppStatus.executable h = cc
is_quoted-eq OppStatus.awaiting_confirm h = cc
is_quoted-eq OppStatus.submitted h = cc
is_quoted-eq OppStatus.paper_filled h = cc
is_quoted-eq OppStatus.landed h = cc
is_quoted-eq OppStatus.failed h = cc

same_profit :
    (i i' g g' : ℕ) (costs : CostBreakdown) (least : ℤ)
    → i' ≡ i
    → g' ≡ g
    → Repays i costs least g
    → Repays i' costs least g'
same_profit i i' g g' costs least ei eg h = rw (ei, eg) h

-- The units that a simulation measured, per transaction.
abbrev pub units : SimulationResult → List ℕ
units sim = map (λ (t : TxSim). t.units_consumed) sim.txs

-- The trade that is priced again is the same.
abbrev SameTrade : Opportunity → Opportunity → Type 0
SameTrade o o' = (o'.input ≡ o.input) × (o'.gross_output ≡ o.gross_output) × (o'.route ≡ o.route)

reprice-SameTrade :
    (o : Opportunity) (shape : TxShape) (used : List ℕ) (delta : Option ℤ) (deposits : Option ℕ)
    (atas : ℕ) (env : PricingEnv) (decimals : ℕ) (now : Ts) (o' : Opportunity)
    → reprice_after_simulation o shape used delta deposits atas env decimals now ≡ some o'
    → SameTrade o o'
unfolding reprice_after_simulation repriced
reprice-SameTrade o shape used delta deposits atas env decimals now o' h =
    let costs_at =
      λ (tip : ℕ). costs_for o.route.legs o.input shape (some used) tip atas env.cost_params in
    let (pre, _, e1) = >>=-eq-some (costs_at 0) _ h in
    let tip = env.tip (before_tip o.input o.gross_output pre) in
    let (costs, _, e2) = >>=-eq-some (costs_at tip.lamports) _ e1 in
    let q : repriced o env tip (with_deposits costs deposits) delta decimals now ≡ o' = cc in
    subst (λ x. SameTrade o x) q (refl, refl, refl)

module _ {W Tx : Type 0} (c : PipelineConfig Tx) (s : Surroundings W Tx) (m : Simulator W Tx) where
  -- What an opportunity went through: it was quoted and its quotes were fresh, there is a taker,
  -- the node simulated all of its transactions without an error, and at the thresholds of the world
  -- `w` after that it is the same trade, within the deposit, its costs pay for the units that were
  -- measured, and it returns its input, the costs and the minimum profit, as modelled and as
  -- measured.
  pub record Examined (cand : Candidate Tx) (p : Pipe W) (w : W) (o : Opportunity) : Type 0 where
    pub was_quoted : cand.job.opp.status ≡ OppStatus.quoted
    pub fresh : quote_age_ms cand.job.opp (s.now p.run.world) ≤ c.max_quote_age_ms
    pub taker : m.has_taker ≡ true
    pub clean : Clean c s m cand.txs p.run.world
    pub simulated :
        (sim : SimulationResult) × (b : Option Balances) × (simulate_txs c s m cand p.run.world
          ≡ some (sim, b, w))
        × (o.simulation ≡ some sim)
        × (length sim.txs ≡ length cand.txs)
        × ((units sim ≡ []) ⊎ PaysFor (units sim) o.costs)
        × ((now : Ts) × (first : Opportunity) × (priced_again c s m cand sim w now cand.job.opp none
                none
              ≡ some first)
            × IfSome
                (λ net. (m.thresholds w).guards.min_profit_lamports ≤ℤ net)
                (measured_net (delta_of c s m cand sim b first) o.costs))
    pub same_trade : SameTrade cand.job.opp o
    pub deposit : o.costs.ata_rent ≤ (m.thresholds w).cost_params.max_new_deposit
    pub modelled : Repays o.input o.costs (m.thresholds w).guards.min_profit_lamports o.gross_output

  -- Only a candidate whose simulation was good stays quoted, as it was priced again.
  concluded-quoted :
      (good was : Bool) (o : Opportunity) (sim : SimulationResult) (priced : Option Opportunity)
      (o' : Opportunity)
      → was ≡ is_quoted o.status
      → concluded_by c s m good was o sim priced ≡ some o'
      → is_quoted o'.status ≡ true
      → (good ≡ true) × (was ≡ true) × (priced ≡ some o')
  unfolding concluded_by
  concluded-quoted true true o sim priced o' w h q = (refl, refl, h)
  concluded-quoted true false o sim priced o' w h q =
      let (x, e, k) = >>=-eq-some priced _ h in
      let same : o'.status ≡ o.status = cc in absurd (ground (arith, ap is_quoted same))
  concluded-quoted false true o sim priced o' w h q = absurd (ground arith)
  concluded-quoted false false o sim priced o' w h q =
      let same : o'.status ≡ o.status = cc in absurd (ground (arith, ap is_quoted same))

  -- The two rounds of pricing, in one.
  measured-StillSound :
      (cand : Candidate Tx) (sim : SimulationResult) (b : Option Balances) (w : W) (now : Ts)
      (o : Opportunity)
      → pos 0 ≤ℤ (m.thresholds w).guards.min_profit_lamports
      → measured c s m cand sim b w now ≡ some o
      → o.status ≡ OppStatus.quoted
      → SameTrade cand.job.opp o
        × ((first : Opportunity) × (priced_again c s m cand sim w now cand.job.opp none none
              ≡ some first)
            × StillSound first (units sim) (delta_of c s m cand sim b first) (env_at c s m w) o)
  unfolding measured
  measured-StillSound cand sim b w now o least h q =
      let shape = shape_of cand.job.plan (length cand.txs) in
      let used = map (λ (t : TxSim). t.units_consumed) sim.txs in
      let env = env_at c s m w in
      let (first, e, e') =
        >>=-eq-some
          (reprice_after_simulation cand.job.opp shape used none none cand.atas_to_create env
            m.base_decimals now)
          _ h in
      let same =
        reprice-SameTrade cand.job.opp shape used none none cand.atas_to_create env m.base_decimals
          now first e in
      let d = delta_of c s m cand sim b first in
      let still =
        reprice-StillSound first shape used d (deposits_at c s m sim) cand.atas_to_create env
          m.base_decimals now o least e' q in
      let t = still.same_trade in ((t.0 ∙ same.0, t.1 ∙ same.1, t.2 ∙ same.2), (first, e, still))

  -- A good simulation is about every transaction.
  complete :
      (cand : Candidate Tx) (sim : SimulationResult) (v w : W) (b : Option Balances)
      → simulate_txs c s m cand v ≡ some (sim, b, w)
      → sim.ok ≡ true
      → length sim.txs ≡ length cand.txs
  unfolding simulate_txs
  complete cand sim v w b h good =
      let (st, _, k) =
        >>=-eq-some (simulate_each c s m cand (m.thresholds v).cost_params.cu_margin 0 cand.txs _) _
          h in
      let q : summary c s m cand v st ≡ sim = ground arith in
      let g : (summary c s m cand v st).ok ≡ true = ap (λ (x : SimulationResult). x.ok) q ∙ good in
      let l : length st.txs ≡ length cand.txs = ground arith in
      subst (λ (x : SimulationResult). length x.txs ≡ length cand.txs) q l

  abbrev Left : Pipe W → Pipe W → Opportunity → Type 0
  Left p p' o' = (p'.run.calls ≡ p.run.calls) × (is_quoted o'.status ≡ false)

  turned_away-Left :
      (cand : Candidate Tx) (now : Ts) (r : SkipReason) (p p' : Pipe W) (o' : Opportunity)
      → some (turned_away c s m cand now r p) ≡ some (p', o')
      → Left p p' o'
  turned_away-Left cand now r p p' o' h = elim (Bool-cases (is_quoted cand.job.opp.status)) [
    | inl was ↦ let h' = rw was at h in ground arith
    | inr sample ↦ let h' = rw sample at h in ground arith
  ]

  -- What is left as it is, or decided.
  abbrev Decided : ℕ → Candidate Tx → Pipe W → Pipe W → Opportunity → Type 0
  Decided fuel cand p p' o' =
      (w : W) × (o : Opportunity) × Examined cand p w o
      × (decide c s fuel (record (cand.job) { opp = o }) (in_world c s m w p) ≡ some (p', o'))

  examine-Examined :
      (fuel : ℕ) (cand : Candidate Tx) (p p' : Pipe W) (o' : Opportunity)
      → ((w : W) → pos 0 ≤ℤ (m.thresholds w).guards.min_profit_lamports)
      → quote_age_ms cand.job.opp (s.now p.run.world) ≤ c.max_quote_age_ms
      → m.has_taker ≡ true
      → examine c s m fuel cand (s.now p.run.world) p ≡ some (p', o')
      → Left p p' o' ⊎ Decided fuel cand p p' o'
  unfolding examine proceed
  examine-Examined fuel cand p p' o' least fresh taker h =
      let now = s.now p.run.world in
      let ((sim, b, w), e1, k1) = >>=-eq-some (simulate_txs c s m cand p.run.world) _ h in
      let (o, e2, k2) = >>=-eq-some (concluded c s m cand sim b w now) _ k1 in
      let o1 : Opportunity = record o { simulation = some sim; updated_at = s.now w } in
      elim (Bool-cases (is_quoted o.status)) [
        | inr skipped ↦ let k = rw (skipped, proceed) at k2 in inl (ground arith)
        | inl quoted ↦
            let k = rw (quoted, proceed) at k2 in
            let (good, was, priced) =
              concluded-quoted sim.ok (is_quoted cand.job.opp.status) cand.job.opp sim
                (measured c s m cand sim b w now) o refl e2 quoted in
            let (same, (first, e3, still)) =
              measured-StillSound cand sim b w now o (least w) priced
                (is_quoted-eq o.status quoted) in
            let x : Examined cand p w o1 = record {
              was_quoted = is_quoted-eq cand.job.opp.status was;
              fresh = fresh;
              taker = taker;
              clean = (simulate_txs-Clean c s m cand p.run.world w sim b e1).0 good;
              simulated = (
                sim,
                b,
                e1,
                refl,
                complete cand sim p.run.world w b e1 good,
                still.consumption,
                (now, first, e3, still.measured),
              );
              same_trade = same;
              deposit = still.deposit;
              modelled =
                  same_profit first.input o.input first.gross_output o.gross_output o.costs
                    (m.thresholds w).guards.min_profit_lamports still.same_trade.0
                    still.same_trade.1 still.modelled;
            } in
            inr (w, o1, x, k)
      ]

  job-Examined :
      (fuel : ℕ) (cand : Candidate Tx) (p p' : Pipe W) (o' : Opportunity)
      → ((w : W) → pos 0 ≤ℤ (m.thresholds w).guards.min_profit_lamports)
      → simulate_job c s m fuel cand p ≡ some (p', o')
      → Left p p' o' ⊎ Decided fuel cand p p' o'
  unfolding simulate_job
  job-Examined fuel cand p p' o' least h =
      let now = s.now p.run.world in
      let age = quote_age_ms cand.job.opp now in
      elim (if-eq (ltb c.max_quote_age_ms age) _ _ h) [
        | inl (_, k) ↦ inl (turned_away-Left cand now SkipReason.stale_quote p p' o' k)
        | inr (fresh, rest) ↦ elim (if-eq (not m.has_taker) _ _ rest) [
          | inl (_, k) ↦
              inl
                (turned_away-Left cand cand.job.opp.updated_at SkipReason.sim_unavailable p p' o' k)
          | inr (taker, k) ↦
              examine-Examined fuel cand p p' o' least (not_over c.max_quote_age_ms age fresh)
                (not-false m.has_taker taker) k
        ]
      ]

  -- With minimum profits that are not negative, and from a run without a call, `simulate_job` sends
  -- nothing, or its candidate was quoted, with fresh quotes, there is a taker, the node simulated
  -- all of its transactions without an error, at the thresholds after that it is still the same
  -- trade within the deposit, its costs record, request and pay for the units that the simulation of
  -- its transactions measured (if it has any), it returns its input, the six costs, their sum cut at
  -- the top of u64, and the minimum profit, as modelled and, where the balance was measured, as
  -- measured, it respects every limit of the risk engine,
  -- the mode allows it, and one transaction was sent, once, through the open gate.
  pub simulate_job-Gated :
      (fuel : ℕ) (cand : Candidate Tx) (p p' : Pipe W) (o' : Opportunity)
      → ((w : W) → pos 0 ≤ℤ (m.thresholds w).guards.min_profit_lamports)
      → p.run.calls ≡ []
      → simulate_job c s m fuel cand p ≡ some (p', o')
      → Quiet p'.run.calls
        ⊎ ((w : W) × (o : Opportunity) × Examined cand p w o
            × Safe p.risk.limits
                (roll_day p.risk.state (s.now w))
                p.risk.kill
                o
                (context c s (in_world c s m w p))
            × Allowed c s c.mode o (in_world c s m w p)
            × Gated c s p'.run.calls)
  simulate_job-Gated fuel cand p p' o' least quiet h =
      elim (job-Examined fuel cand p p' o' least h) [
        | inl (same, _) ↦ inl (subst (λ l. Quiet l) (sym (same ∙ quiet)) tt)
        | inr (w, o, x, run) ↦
            let q = in_world c s m w p in
            elim (decide-Gated c s fuel (record (cand.job) { opp = o }) q p' o' quiet run) [
              | inl unsent ↦ inl unsent
              | inr (safe, allowed, gated) ↦ inr (w, o, x, safe, allowed, gated)
            ]
      ]
