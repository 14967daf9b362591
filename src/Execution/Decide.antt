-- ===== src/Execution/Decide.antt =====
-- crates/execution/src/pipeline.rs, from the risk decision on: `decide`, `paper_fill`,
-- `confirm_then_send` and `send_live`. The views that the pipeline reads, the operator, the assembly
-- of the final transactions and the parts of `execute_live` are parameters on the world. Of the
-- events, the status of the opportunity is kept each time that it is shown. The code awaits the
-- operator and the backend, and the kill switch and the engine are shared while it does; here no
-- other call takes place in between, so the risk engine that decides is the one at the sending.
pub mod Gate
pub mod Balance
pub mod Ends
pub mod Samples
mod Tests
use mobius_searcher.Base.{
  ℕ, suc, ◌+◌, ◌-◌, Bool, true, false, Option, none, some, List, [], ◌∷◌, ltb, leb, if◌then◌else◌,
  ◌>>=◌, min,
}
use mobius_searcher.Base.Int.{ℤ, pos, pos_part, ◌+ℤ◌}
use mobius_searcher.Base.Words.{wrap_i64}
use mobius_searcher.Core.Units.{UsdPrice, UsdMicros, value}
use mobius_searcher.Core.Time.{Ts}
use mobius_searcher.Core.Profit.{chosen_net}
use mobius_searcher.Core.Model.{
  Mode, paper, confirm, live, PlanKind, SkipReason, OppStatus, Opportunity, RiskDecision,
  primary_skip, quote_age_ms,
}
use mobius_searcher.Risk.{RiskEngine, RiskContext, evaluate, open_execution, close_execution}
use mobius_searcher.Jito.Permit.{SendPermit}
use mobius_searcher.Execution.Live.{
  LiveBackend, LiveParams, Wallet, Run, LiveOutcome, landed, failed, timed_out, not_sent,
  execute_live,
}

-- What is fixed for the run of the program: the mode, the bounds, and `Pipeline::live`.
pub record PipelineConfig (Tx : Type 0) : Type 0 where
  pub mode : Mode
  pub max_quote_age_ms : ℕ
  pub paper_equity_lamports : ℕ
  pub live_params : LiveParams
  pub gate : Option (SendPermit × Wallet Tx)

-- What the pipeline reads of the world around it; a balance is known if it is not older than the
-- milliseconds that are given. The operator approves, declines, or is silent.
pub record Surroundings (W Tx : Type 0) : Type 0 where
  pub backend : LiveBackend W
  pub now : W → Ts
  pub wallet_lamports : ℕ → W → Option ℕ
  pub sol_price : W → Option UsdPrice
  pub slot : W → Option ℕ
  pub operator : W → Option Bool × W
  pub assemble : Opportunity → W → Option (List Tx)

-- `SimJob`, as far as it is used from here on: the legs are their last valid block heights.
pub record SimJob : Type 0 where
  pub opp : Opportunity
  pub plan : PlanKind
  pub heights : List ℕ

pub record Pipe (W : Type 0) : Type 0 where
  pub risk : RiskEngine
  pub run : Run W
  pub paper_net : ℤ
  pub shown : List OppStatus

-- `job.legs.iter().map(…).min().unwrap_or(0)`
abbrev pub lowest : List ℕ → ℕ
lowest [] = 0
lowest (h ∷ []) = h
lowest (h ∷ k ∷ hs) = min h (lowest (k ∷ hs))

-- The dollars of a result, or zero.
abbrev pub dollars : Option UsdPrice → ℤ → UsdMicros
dollars price net = elim (price >>= λ p. value p net 9) [ none ↦ pos 0 | some u ↦ u ]

abbrev pub Done : Type 0 → Type 0
Done W = Option (Pipe W × Opportunity)

-- The new status, and that it is shown.
abbrev pub show : {W : Type 0} → Pipe W → Opportunity → OppStatus → Pipe W × Opportunity
show p o s = (record p { shown = s ∷ p.shown }, record o { status = s })

-- Whether a bundle landed, and the change of the balance.
abbrev pub success_of : LiveOutcome → Bool
success_of (landed id slot signatures gain ms) = true
success_of (failed id why ms) = false
success_of (timed_out id) = false
success_of (not_sent why) = false

abbrev pub net_of : LiveOutcome → ℤ
net_of (landed id slot signatures none ms) = pos 0
net_of (landed id slot signatures (some gain) ms) = gain
net_of (failed id why ms) = pos 0
net_of (timed_out id) = pos 0
net_of (not_sent why) = pos 0

module _ {W Tx : Type 0} (c : PipelineConfig Tx) (s : Surroundings W Tx) where
  -- `equity_lamports`
  abbrev pub equity_lamports : Mode → Pipe W → ℕ
  equity_lamports paper p =
      pos_part (wrap_i64 (wrap_i64 (pos c.paper_equity_lamports) +ℤ p.paper_net))
  equity_lamports confirm p = elim (s.wallet_lamports 120_000 p.run.world) [ none ↦ 0 | some l ↦ l ]
  equity_lamports live p = elim (s.wallet_lamports 120_000 p.run.world) [ none ↦ 0 | some l ↦ l ]

  abbrev pub context : Pipe W → RiskContext
  context p = record {
    now = s.now p.run.world;
    mode = c.mode;
    equity_lamports = equity_lamports c.mode p;
    wallet_lamports = elim c.mode [
      | paper ↦ none
      | confirm ↦ s.wallet_lamports 60_000 p.run.world
      | live ↦ s.wallet_lamports 60_000 p.run.world
    ];
    sol_price = s.sol_price p.run.world;
    latest_slot = s.slot p.run.world;
  }

  -- `paper_fill`
  pub paper_fill : Opportunity → Pipe W → Pipe W × Opportunity
  paper_fill o p =
      let now = s.now p.run.world in
      let net = chosen_net o.eval in
      let opened = open_execution p.risk in
      let closed = close_execution opened now true (dollars (s.sol_price p.run.world) net) in
      show (record p { risk = closed; paper_net = wrap_i64 (p.paper_net +ℤ net) })
        (record o { updated_at = now }) OppStatus.paper_filled

  -- What `send_live` does with the outcome.
  pub settled : Opportunity → Pipe W → LiveOutcome → Run W → Pipe W × Opportunity
  settled o p out run =
      let net_usd = dollars (s.sol_price run.world) (net_of out) in
      let closed = close_execution p.risk (s.now run.world) (success_of out) net_usd in
      show (record p { risk = closed; run = run }) o
        (if success_of out then OppStatus.landed else OppStatus.failed)

  pub submit : ℕ → SimJob → SendPermit → Wallet Tx → List Tx → Pipe W → Done W
  unfolding settled
  submit fuel job permit k txs p =
      let (p1, o1) = show (record p { risk = open_execution p.risk }) job.opp OppStatus.submitted in
      execute_live s.backend c.live_params permit k fuel (lowest job.heights) txs p1.run
      >>= λ (out, run). some (settled o1 p1 out run)

  -- `send_live`
  pub send_live : ℕ → SimJob → Pipe W → Done W
  unfolding submit
  send_live fuel job p = elim c.gate [
    | none ↦ some (show p job.opp (OppStatus.skipped SkipReason.risk_limit))
    | some (permit, k) ↦ elim (s.assemble job.opp p.run.world) [
      | none ↦ some (show p job.opp (OppStatus.skipped SkipReason.tx_too_large))
      | some txs ↦ submit fuel job permit k txs p
    ]
  ]

  -- What follows the operator's answer.
  pub answered : ℕ → SimJob → Option Bool → Pipe W → Done W
  unfolding send_live
  answered fuel job none p = some (show p job.opp (OppStatus.skipped SkipReason.expired))
  answered fuel job (some false) p = some (show p job.opp (OppStatus.skipped SkipReason.declined))
  answered fuel job (some true) p =
      if ltb c.max_quote_age_ms (quote_age_ms job.opp (s.now p.run.world))
      then some (show p job.opp (OppStatus.skipped SkipReason.stale_quote))
      else send_live fuel job p

  -- `confirm_then_send`
  pub confirm_then_send : ℕ → SimJob → Pipe W → Done W
  unfolding answered
  confirm_then_send fuel job p =
      let (p1, o1) = show p job.opp OppStatus.awaiting_confirm in
      let (answer, w) = s.operator p1.run.world in
      let asked : Run W = record { world = w; calls = p1.run.calls } in
      answered fuel (record job { opp = o1 }) answer (record p1 { run = asked })

  abbrev pub reason_of : RiskDecision → SkipReason
  reason_of d = elim (primary_skip d) [ none ↦ SkipReason.risk_limit | some r ↦ r ]

  -- What follows the decision, by the mode.
  pub executed : ℕ → Mode → SimJob → Pipe W → Done W
  unfolding paper_fill confirm_then_send send_live
  executed fuel paper job p = some (paper_fill job.opp p)
  executed fuel confirm job p = confirm_then_send fuel job p
  executed fuel live job p = send_live fuel job p

  -- `decide`, on fuel for the polling.
  unfoldable pub decide : ℕ → SimJob → Pipe W → Done W
  unfolding executed
  decide fuel job p =
      let (risk, d) = evaluate p.risk job.opp (context p) in
      let p1 : Pipe W = record p { risk = risk } in
      let o1 : Opportunity = record (job.opp) { risk = some d } in
      if d.approved
      then (let (p2, o2) = show p1 o1 OppStatus.executable in
          executed fuel c.mode (record job { opp = o2 }) p2)
      else some (show p1 o1 (OppStatus.skipped (reason_of d)))
