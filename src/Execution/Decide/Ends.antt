-- ===== src/Execution/Decide/Ends.antt =====
-- `decide` of crates/execution/src/pipeline.rs returns: its one loop is that of `execute_live`.
use mobius_searcher.Base.{
  ℕ, suc, ◌-◌, ◌^◌, ◌<◌, ◌≡◌, refl, Bool, true, false, Option, none, some, List, ltb, inl, inr,
  Bool-cases, Option-cases,
}
use mobius_searcher.Core.Model.{Mode, paper, confirm, live, OppStatus, Opportunity, quote_age_ms}
use mobius_searcher.Risk.{evaluate}
use mobius_searcher.Jito.Permit.{SendPermit}
use mobius_searcher.Execution.Live.{Wallet}
use mobius_searcher.Execution.Live.Ends.{Timed, passes, execute_live-Returns}
use mobius_searcher.Execution.Decide.{
  PipelineConfig, Surroundings, SimJob, Pipe, Done, lowest, show, context, submit, send_live,
  answered, confirm_then_send, executed, decide,
}
use mobius_searcher.Execution.Decide.Balance.{Through, decide-Through}

module _ {W Tx : Type 0} (c : PipelineConfig Tx) (s : Surroundings W Tx) (t : Timed s.backend)
    (polls : 0 < c.live_params.poll) where
  abbrev Some : Done W → Type 0
  Some d = (x : Pipe W × Opportunity) × (d ≡ some x)

  -- The polls that fit in the timeout, and two more.
  abbrev pub fuel : ℕ
  fuel = suc (passes s.backend c.live_params t)

  submit_ends :
      (job : SimJob) (permit : SendPermit) (k : Wallet Tx) (txs : List Tx) (p : Pipe W)
      → Some (submit c s fuel job permit k txs p)
  unfolding submit
  submit_ends job permit k txs p =
      let (x, e) =
        execute_live-Returns s.backend c.live_params t permit polls k (lowest job.heights) txs
          p.run in
      rw e (_, refl)

  gate_ends : (job : SimJob) (p : Pipe W) → Some (send_live c s fuel job p)
  unfolding send_live
  gate_ends job p = elim (Option-cases c.gate) [
    | inl shut ↦ rw (shut, send_live) (_, refl)
    | inr ((permit, k), open_gate) ↦ elim (Option-cases (s.assemble job.opp p.run.world)) [
      | inl too_large ↦ rw (open_gate, too_large, send_live) (_, refl)
      | inr (txs, built) ↦ rw (open_gate, built, send_live) (submit_ends job permit k txs p)
    ]
  ]

  answer_ends : (job : SimJob) (a : Option Bool) (p : Pipe W) → Some (answered c s fuel job a p)
  unfolding answered
  answer_ends job none p = (_, refl)
  answer_ends job (some false) p = (_, refl)
  answer_ends job (some true) p =
      elim (Bool-cases (ltb c.max_quote_age_ms (quote_age_ms job.opp (s.now p.run.world)))) [
        | inl old ↦ rw (old, answered) (_, refl)
        | inr fresh ↦ rw (fresh, answered) (gate_ends job p)
      ]

  mode_ends : (m : Mode) (job : SimJob) (p : Pipe W) → Some (executed c s fuel m job p)
  unfolding executed confirm_then_send
  mode_ends paper job p = (_, refl)
  mode_ends confirm job p =
      let (p1, o1) = show p job.opp OppStatus.awaiting_confirm in
      let (a, w) = s.operator p.run.world in
      answer_ends (record job { opp = o1 }) a
        (record p1 { run = record { world = w; calls = p.run.calls } })
  mode_ends live job p = gate_ends job p

  decide_ends : (job : SimJob) (p : Pipe W) → Some (decide c s fuel job p)
  unfolding decide
  decide_ends job p =
      let (risk, d) = evaluate p.risk job.opp (context c s p) in
      let p1 : Pipe W = record p { risk = risk } in
      let o1 : Opportunity = record (job.opp) { risk = some d } in
      let (p2, o2) = show p1 o1 OppStatus.executable in
      elim (Bool-cases d.approved) [
        | inr refused ↦ rw (refused, decide) (_, refl)
        | inl approved ↦ rw (approved, decide) (mode_ends c.mode (record job { opp = o2 }) p2)
      ]

  -- With a poll interval that is not zero, on a clock that does not go back and a sleep that takes
  -- its time, and where fewer than 2^32 - 1 executions are open, `decide` returns, whatever the
  -- backend and the operator answer. The opportunity is then in a status that is final and was shown
  -- last, as many executions are open as before, and the limits and the kill switch are the same.
  pub decide-ends_Through :
      (job : SimJob) (p : Pipe W)
      → p.risk.state.open_executions < 2 ^ 32 - 1
      → (x : Pipe W × Opportunity) × (decide c s fuel job p ≡ some x) × Through c s p.risk x
  decide-ends_Through job p h =
      let (x, e) = decide_ends job p in (x, e, decide-Through c s fuel job p x h e)
