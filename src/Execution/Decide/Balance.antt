-- ===== src/Execution/Decide/Balance.antt =====
-- What `decide` of crates/execution/src/pipeline.rs leaves in the risk engine.
use mobius_searcher.Base.{
  ℕ, ◌+◌, ◌-◌, ◌%◌, ◌^◌, ◌<◌, ◌≡◌, refl, ◌∙◌, subst, Bool, true, false, Option, none, some, List,
  ◌∷◌, ltb, if◌then◌else◌, >>=-eq-some, arith, inl, inr, Bool-cases, Option-cases,
}
use mobius_searcher.Core.Units.{UsdMicros}
use mobius_searcher.Core.Time.{Ts}
use mobius_searcher.Core.Model.{
  Mode, paper, confirm, live, OppStatus, Opportunity, SkipReason, is_terminal, quote_age_ms,
}
use mobius_searcher.Risk.{
  RiskEngine, RiskContext, RiskState, roll_day, same_ℤ, utc_day, evaluate, open_execution, closed,
  close_execution,
}
use mobius_searcher.Jito.Permit.{SendPermit}
use mobius_searcher.Execution.Live.{Wallet, execute_live}
use mobius_searcher.Execution.Decide.{
  PipelineConfig, Surroundings, SimJob, Pipe, Done, lowest, show, context, paper_fill, settled,
  submit, send_live, answered, confirm_then_send, executed, reason_of, decide, success_of,
}

-- The engine has the same limits, kill switch and open executions.
pub record Kept (a b : RiskEngine) : Type 0 where
  pub limits : b.limits ≡ a.limits
  pub kill : b.kill ≡ a.kill
  pub open_executions : b.state.open_executions ≡ a.state.open_executions

rolled_open : (st : RiskState) (now : Ts) → (roll_day st now).open_executions ≡ st.open_executions
unfolding roll_day
rolled_open st now = elim (Bool-cases (same_ℤ st.day (utc_day now))) [
  | inl today ↦ rw today refl
  | inr other ↦ rw other refl
]

opened_closed :
    (e : RiskEngine) (now : Ts) (success : Bool) (usd : UsdMicros)
    → e.state.open_executions < 2 ^ 32 - 1
    → Kept e (close_execution (open_execution e) now success usd)
unfolding close_execution closed open_execution
opened_closed e now success usd h = record {
  limits = refl;
  kill = refl;
  open_executions = omega (
    arith,
    rolled_open (record (e.state) { open_executions = (e.state.open_executions + 1) % 2 ^ 32 }) now,
  );
}

evaluated : (p : RiskEngine) (o : Opportunity) (ctx : RiskContext) → Kept p (evaluate p o ctx).0
unfolding evaluate
evaluated p o ctx = record {
  limits = refl;
  kill = refl;
  open_executions = rolled_open p.state ctx.now;
}

outcome_final : (b : Bool) → is_terminal (if b then OppStatus.landed else OppStatus.failed) ≡ true
unfolding is_terminal
outcome_final true = refl
outcome_final false = refl

Kept-trans : (a b c : RiskEngine) → Kept a b → Kept b c → Kept a c
Kept-trans a b c h k = record {
  limits = k.limits ∙ h.limits;
  kill = k.kill ∙ h.kill;
  open_executions = k.open_executions ∙ h.open_executions;
}

module _ {W Tx : Type 0} (c : PipelineConfig Tx) (s : Surroundings W Tx) where
  -- An opportunity that is through: a final status, which was the last one shown, and the engine kept.
  pub record Through (e : RiskEngine) (x : Pipe W × Opportunity) : Type 0 where
    pub kept : Kept e x.0.risk
    pub final : is_terminal x.1.status ≡ true
    pub last_shown : (before : List OppStatus) × (x.0.shown ≡ x.1.status ∷ before)

  AllThrough : RiskEngine → Done W → Type 0
  AllThrough e d = (x : Pipe W × Opportunity) → d ≡ some x → Through e x

  shown_through :
      (p : Pipe W) (o : Opportunity) (st : OppStatus)
      → is_terminal st ≡ true
      → AllThrough p.risk (some (show p o st))
  unfolding AllThrough
  shown_through p o st h x e =
      let q : show p o st ≡ x = cc in
      subst (Through p.risk) q (record {
        kept = record { limits = refl; kill = refl; open_executions = refl };
        final = h;
        last_shown = (p.shown, refl);
      })

  paper_through :
      (p : Pipe W) (o : Opportunity)
      → p.risk.state.open_executions < 2 ^ 32 - 1
      → AllThrough p.risk (some (paper_fill c s o p))
  unfolding AllThrough paper_fill is_terminal
  paper_through p o h x e =
      let q : paper_fill c s o p ≡ x = cc in
      subst (Through p.risk) q
        (record { kept = opened_closed p.risk _ _ _ h; final = refl; last_shown = (p.shown, refl) })

  submit_through :
      (fuel : ℕ) (job : SimJob) (permit : SendPermit) (k : Wallet Tx) (txs : List Tx) (p : Pipe W)
      → p.risk.state.open_executions < 2 ^ 32 - 1
      → AllThrough p.risk (submit c s fuel job permit k txs p)
  unfolding AllThrough submit
  submit_through fuel job permit k txs p h x e =
      let ((out, run), _, f) =
        >>=-eq-some
          (execute_live s.backend c.live_params permit k fuel (lowest job.heights) txs p.run) _ e in
      let (p1, o1) = show (record p { risk = open_execution p.risk }) job.opp OppStatus.submitted in
      let q : settled c s o1 p1 out run ≡ x = cc in
      subst (Through p.risk) q (
        unfold settled in
        record {
          kept = opened_closed p.risk _ _ _ h;
          final = outcome_final (success_of out);
          last_shown = (p1.shown, refl);
        })

  gate_through :
      (fuel : ℕ) (job : SimJob) (p : Pipe W)
      → p.risk.state.open_executions < 2 ^ 32 - 1
      → AllThrough p.risk (send_live c s fuel job p)
  unfolding AllThrough send_live is_terminal
  gate_through fuel job p h x e = elim (Option-cases c.gate) [
    | inl shut ↦
        let now = rw (shut, send_live) at e in
        shown_through p job.opp (OppStatus.skipped SkipReason.risk_limit) refl x now
    | inr ((permit, k), open_gate) ↦
        let now = rw (open_gate, send_live) at e in
        elim (Option-cases (s.assemble job.opp p.run.world)) [
          | inl too_large ↦
              let on = rw too_large at now in
              shown_through p job.opp (OppStatus.skipped SkipReason.tx_too_large) refl x on
          | inr (txs, built) ↦
              let on = rw built at now in submit_through fuel job permit k txs p h x on
        ]
  ]

  answer_through :
      (fuel : ℕ) (job : SimJob) (a : Option Bool) (p : Pipe W)
      → p.risk.state.open_executions < 2 ^ 32 - 1
      → AllThrough p.risk (answered c s fuel job a p)
  unfolding AllThrough answered is_terminal
  answer_through fuel job none p h x e =
      shown_through p job.opp (OppStatus.skipped SkipReason.expired) refl x e
  answer_through fuel job (some false) p h x e =
      shown_through p job.opp (OppStatus.skipped SkipReason.declined) refl x e
  answer_through fuel job (some true) p h x e =
      elim (Bool-cases (ltb c.max_quote_age_ms (quote_age_ms job.opp (s.now p.run.world)))) [
        | inl old ↦
            let now = rw (old, answered) at e in
            shown_through p job.opp (OppStatus.skipped SkipReason.stale_quote) refl x now
        | inr fresh ↦ let now = rw (fresh, answered) at e in gate_through fuel job p h x now
      ]

  mode_through :
      (fuel : ℕ) (m : Mode) (job : SimJob) (p : Pipe W)
      → p.risk.state.open_executions < 2 ^ 32 - 1
      → AllThrough p.risk (executed c s fuel m job p)
  unfolding executed confirm_then_send
  mode_through fuel paper job p h = paper_through p job.opp h
  mode_through fuel confirm job p h =
      let (a, w) = s.operator p.run.world in
      let (p1, o1) = show p job.opp OppStatus.awaiting_confirm in
      answer_through fuel (record job { opp = o1 }) a
        (record p1 { run = record { world = w; calls = p.run.calls } }) h
  mode_through fuel live job p h = gate_through fuel job p h

  rekept : (a b : RiskEngine) (x : Pipe W × Opportunity) → Kept a b → Through b x → Through a x
  rekept a b x k t = record {
    kept = Kept-trans a b x.0.risk k t.kept;
    final = t.final;
    last_shown = t.last_shown;
  }

  -- Where fewer than 2^32 - 1 executions are open, `decide` leaves every opportunity in a status that
  -- is final and was shown last, with as many executions open as before, and with the same limits and
  -- kill switch.
  pub decide-Through :
      (fuel : ℕ) (job : SimJob) (p : Pipe W) (x : Pipe W × Opportunity)
      → p.risk.state.open_executions < 2 ^ 32 - 1
      → decide c s fuel job p ≡ some x
      → Through p.risk x
  unfolding decide AllThrough is_terminal
  decide-Through fuel job p x h e =
      let (risk, d) = evaluate p.risk job.opp (context c s p) in
      let k = evaluated p.risk job.opp (context c s p) in
      let p1 : Pipe W = record p { risk = risk } in
      let o1 : Opportunity = record (job.opp) { risk = some d } in
      let (p2, o2) = show p1 o1 OppStatus.executable in
      elim (Bool-cases d.approved) [
        | inr refused ↦
            let now = rw (refused, decide) at e in
            rekept p.risk risk x k
              (shown_through p1 o1 (OppStatus.skipped (reason_of c s d)) refl x now)
        | inl approved ↦
            let now = rw (approved, decide) at e in
            let low : risk.state.open_executions < 2 ^ 32 - 1 = omega (arith, k.open_executions) in
            rekept p.risk risk x k (mode_through fuel c.mode (record job { opp = o2 }) p2 low x now)
      ]
