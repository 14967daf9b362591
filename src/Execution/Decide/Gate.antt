-- ===== src/Execution/Decide/Gate.antt =====
-- What has to be true before `decide` of crates/execution/src/pipeline.rs sends anything.
use Prim.Native.String.{String}
use mobius_searcher.Base.{
  ℕ, ◌≤◌, ◌≡◌, refl, ap, subst, Bool, true, false, Option, none, some, List, [], ◌∷◌, ltb,
  >>=-eq-some, arith, All, ◌⊎◌, inl, inr, Bool-cases, Option-cases,
}
use mobius_searcher.Core.Model.{
  Mode, paper, confirm, live, OppStatus, Opportunity, RiskDecision, SkipReason, quote_age_ms,
}
use mobius_searcher.Risk.{RiskEngine, roll_day, evaluate, open_execution}
use mobius_searcher.Risk.Approval.{Safe, evaluate-Safe}
use mobius_searcher.Jito.Permit.{SendPermit}
use mobius_searcher.Execution.Live.{Run, LiveOutcome, Wallet, Call, signed, sign_all, execute_live}
use mobius_searcher.Execution.Live.Careful.{Sends, SentOnce, execute_live-careful}
use mobius_searcher.Execution.Decide.{
  PipelineConfig, Surroundings, SimJob, Pipe, lowest, show, context, paper_fill, settled, submit,
  send_live, answered, confirm_then_send, executed, reason_of, decide,
}

abbrev pub Quiet : List Call → Type 0
Quiet calls = All (λ x. ¬ Sends x) calls

module _ {W Tx : Type 0} (c : PipelineConfig Tx) (s : Surroundings W Tx) where
  -- Sent once, from a wallet with the minimum, as one transaction that the wallet signed.
  abbrev pub Once : Wallet Tx → List Call → Type 0
  Once k calls =
      (txs : List Tx) × (text : String) × (signatures : List String) × (before : ℕ)
      × (out : LiveOutcome) × (sign_all k txs ≡ signed (text ∷ []) signatures)
      × (c.live_params.min_wallet_lamports ≤ before)
      × SentOnce text signatures before out calls

  -- Nothing was sent, or the gate is open and it was sent once.
  abbrev pub Gated : List Call → Type 0
  Gated calls =
      Quiet calls
      ⊎ ((permit : SendPermit) × (k : Wallet Tx) × (c.gate ≡ some (permit, k)) × Once k calls)

  -- What holds of the calls of a result.
  ended :
      (P : List Call → Type 0) (x : Pipe W × Opportunity) {p' : Pipe W} {o' : Opportunity}
      → P x.0.run.calls
      → some x ≡ some (p', o')
      → P p'.run.calls
  ended P x {p'} {o'} h e =
      let q : x ≡ (p', o') = cc in subst (λ (y : Pipe W × Opportunity). P y.0.run.calls) q h

  settled-run :
      (o : Opportunity) (p : Pipe W) (out : LiveOutcome) (run : Run W)
      → (settled c s o p out run).0.run ≡ run
  unfolding settled
  settled-run o p out run = refl

  -- The result of `submit`, from a run without a call.
  submitted :
      (fuel : ℕ) (job : SimJob) (permit : SendPermit) (k : Wallet Tx) (txs : List Tx) (p : Pipe W)
      (p' : Pipe W) (o' : Opportunity)
      → p.run.calls ≡ []
      → submit c s fuel job permit k txs p ≡ some (p', o')
      → Quiet p'.run.calls ⊎ Once k p'.run.calls
  unfolding submit
  submitted fuel job permit k txs p p' o' quiet h =
      let fresh : Run W = record { world = p.run.world; calls = [] } in
      let same : p.run ≡ fresh =
        ap (λ (cs : List Call). let r : Run W = record { world = p.run.world; calls = cs } in r)
          quiet in
      let run_live = λ (r : Run W).
        execute_live s.backend c.live_params permit k fuel (lowest job.heights) txs r in
      let ((out, run), e, f) = >>=-eq-some (run_live p.run) _ h in
      let from_fresh = subst (λ (r : Run W). run_live r ≡ some (out, run)) same e in
      let told =
        execute_live-careful s.backend c.live_params permit k fuel (lowest job.heights) txs
          p.run.world out run from_fresh in
      let claim : Quiet run.calls ⊎ Once k run.calls = elim told [
        | inl unsent ↦ inl (unsent.1)
        | inr (_, (text, signatures, before, once, enough, conduct)) ↦
            inr (txs, text, signatures, before, out, once, enough, conduct)
      ] in
      let (p1, o1) = show (record p { risk = open_execution p.risk }) job.opp OppStatus.submitted in
      ended (λ calls. Quiet calls ⊎ Once k calls) (settled c s o1 p1 out run) claim f

  gate_cases :
      (g : Option (SendPermit × Wallet Tx))
      → (g ≡ none) ⊎ ((permit : SendPermit) × (k : Wallet Tx) × (g ≡ some (permit, k)))
  gate_cases none = inl refl
  gate_cases (some (permit, k)) = inr (permit, k, refl)

  shown_quiet :
      (p : Pipe W) (o : Opportunity) (st : OppStatus) (p' : Pipe W) (o' : Opportunity)
      → p.run.calls ≡ []
      → some (show p o st) ≡ some (p', o')
      → Quiet p'.run.calls
  shown_quiet p o st p' o' quiet h = ended Quiet (show p o st) (rw quiet tt) h

  sent_live :
      (fuel : ℕ) (job : SimJob) (p : Pipe W) (p' : Pipe W) (o' : Opportunity)
      → p.run.calls ≡ []
      → send_live c s fuel job p ≡ some (p', o')
      → Gated p'.run.calls
  unfolding send_live
  sent_live fuel job p p' o' quiet h = elim (gate_cases c.gate) [
    | inl shut ↦
        let now = rw (shut, send_live) at h in
        inl (shown_quiet p job.opp (OppStatus.skipped SkipReason.risk_limit) p' o' quiet now)
    | inr (permit, k, open_gate) ↦
        let now = rw (open_gate, send_live) at h in
        elim (Option-cases (s.assemble job.opp p.run.world)) [
          | inl too_large ↦
              let on = rw too_large at now in
              inl (shown_quiet p job.opp (OppStatus.skipped SkipReason.tx_too_large) p' o' quiet on)
          | inr (txs, built) ↦
              let on = rw built at now in
              elim (submitted fuel job permit k txs p p' o' quiet on) [
                | inl unsent ↦ inl unsent
                | inr once ↦ inr (permit, k, open_gate, once)
              ]
        ]
  ]

  after_answer :
      (fuel : ℕ) (job : SimJob) (a : Option Bool) (p : Pipe W) (p' : Pipe W) (o' : Opportunity)
      → p.run.calls ≡ []
      → answered c s fuel job a p ≡ some (p', o')
      → Quiet p'.run.calls
        ⊎ ((a ≡ some true)
            × (quote_age_ms job.opp (s.now p.run.world) ≤ c.max_quote_age_ms)
            × Gated p'.run.calls)
  unfolding answered
  after_answer fuel job none p p' o' quiet h =
      inl (shown_quiet p job.opp (OppStatus.skipped SkipReason.expired) p' o' quiet h)
  after_answer fuel job (some false) p p' o' quiet h =
      inl (shown_quiet p job.opp (OppStatus.skipped SkipReason.declined) p' o' quiet h)
  after_answer fuel job (some true) p p' o' quiet h =
      elim (Bool-cases (ltb c.max_quote_age_ms (quote_age_ms job.opp (s.now p.run.world)))) [
        | inl old ↦
            let now = rw (old, answered) at h in
            inl (shown_quiet p job.opp (OppStatus.skipped SkipReason.stale_quote) p' o' quiet now)
        | inr fresh ↦
            let now = rw (fresh, answered) at h in
            inr (refl, ground arith, sent_live fuel job p p' o' quiet now)
      ]

  -- The operator approved, and the quote was not too old then.
  abbrev pub Approved : Opportunity → Pipe W → Type 0
  Approved o p =
      ((s.operator p.run.world).0 ≡ some true)
      × (quote_age_ms o (s.now (s.operator p.run.world).1) ≤ c.max_quote_age_ms)

  confirmed :
      (fuel : ℕ) (job : SimJob) (p : Pipe W) (p' : Pipe W) (o' : Opportunity)
      → p.run.calls ≡ []
      → confirm_then_send c s fuel job p ≡ some (p', o')
      → Quiet p'.run.calls ⊎ (Approved job.opp p × Gated p'.run.calls)
  unfolding confirm_then_send quote_age_ms
  confirmed fuel job p p' o' quiet h =
      let (a, w) = s.operator p.run.world in
      let (p1, o1) = show p job.opp OppStatus.awaiting_confirm in
      let p2 : Pipe W = record p1 { run = record { world = w; calls = p.run.calls } } in
      elim (after_answer fuel (record job { opp = o1 }) a p2 p' o' quiet h) [
        | inl unsent ↦ inl unsent
        | inr (agreed, age, gated) ↦ inr ((agreed, age), gated)
      ]

  -- What the mode asks for, before anything is sent.
  abbrev pub Allowed : Mode → Opportunity → Pipe W → Type 0
  Allowed paper o p = ⊥
  Allowed confirm o p = Approved o p
  Allowed live o p = Unit

  by_mode :
      (fuel : ℕ) (m : Mode) (job : SimJob) (p : Pipe W) (p' : Pipe W) (o' : Opportunity)
      → p.run.calls ≡ []
      → executed c s fuel m job p ≡ some (p', o')
      → Quiet p'.run.calls ⊎ (Allowed m job.opp p × Gated p'.run.calls)
  unfolding executed
  by_mode fuel paper job p p' o' quiet h =
      inl (ended Quiet (paper_fill c s job.opp p) (unfold paper_fill in rw quiet tt) h)
  by_mode fuel confirm job p p' o' quiet h = confirmed fuel job p p' o' quiet h
  by_mode fuel live job p p' o' quiet h = inr (tt, sent_live fuel job p p' o' quiet h)

  same-Allowed :
      (m : Mode) (o : Opportunity) (p : Pipe W) (d : RiskDecision) (risk : RiskEngine)
      → Allowed m
          (record o { risk = some d; status = OppStatus.executable })
          (record p { risk = risk; shown = OppStatus.executable ∷ p.shown })
      → Allowed m o p
  unfolding quote_age_ms
  same-Allowed paper o p d risk h = h
  same-Allowed confirm o p d risk h = h
  same-Allowed live o p d risk h = h

  -- From a run without a call, `decide` sends nothing, or: the opportunity respects every limit of the
  -- risk engine on the day's state with its kill switch released, the mode is live, or it is confirm
  -- and the operator approved a quote that was not too old then, the live gate is open, and one
  -- transaction, which its wallet signed, was sent once and from a wallet with the minimum.
  pub decide-Gated :
      (fuel : ℕ) (job : SimJob) (p : Pipe W) (p' : Pipe W) (o' : Opportunity)
      → p.run.calls ≡ []
      → decide c s fuel job p ≡ some (p', o')
      → Quiet p'.run.calls
        ⊎ (Safe p.risk.limits
              (roll_day p.risk.state (s.now p.run.world))
              p.risk.kill
              job.opp
              (context c s p)
            × Allowed c.mode job.opp p
            × Gated p'.run.calls)
  unfolding decide
  decide-Gated fuel job p p' o' quiet h =
      let (risk, d) = evaluate p.risk job.opp (context c s p) in
      let p1 : Pipe W = record p { risk = risk } in
      let o1 : Opportunity = record (job.opp) { risk = some d } in
      let (p2, o2) = show p1 o1 OppStatus.executable in
      elim (Bool-cases d.approved) [
        | inr refused ↦
            let now = rw (refused, decide) at h in
            inl (shown_quiet p1 o1 (OppStatus.skipped (reason_of c s d)) p' o' quiet now)
        | inl approved ↦
            let now = rw (approved, decide) at h in
            let safe = (evaluate-Safe p.risk job.opp (context c s p)).0 approved in
            elim (by_mode fuel c.mode (record job { opp = o2 }) p2 p' o' quiet now) [
              | inl unsent ↦ inl unsent
              | inr (allowed, gated) ↦
                  inr (safe, same-Allowed c.mode job.opp p d risk allowed, gated)
            ]
      ]
