-- ===== src/Execution/Live/Careful.antt =====
-- The whole run of `execute_live` of crates/execution/src/live.rs: what was known before anything was
-- sent, and how often it was sent.
use Prim.Native.String.{String}
use mobius_searcher.Base.{
  ℕ, ◌+◌, ◌%◌, ◌^◌, ◌≤◌, ◌<◌, ◌≡◌, refl, ap, subst, ◌∙◌, Option, none, some, List, [], ◌∷◌, ltb,
  leb, arith, All, ◌⊎◌, inl, inr, Bool-cases, Option-cases, ltb→lt,
}
use mobius_searcher.Base.Results.{Result, ok, err}
use mobius_searcher.Jito.Permit.{SendPermit}
use mobius_searcher.Execution.Live.{
  LiveBackend, LiveParams, Wallet, NotSent, LiveOutcome, not_sent, Call, simulated, balance_read,
  sent, polled, status_read, Run, Bundle, Ended, Signed, signed, unsigned, sign_all, send,
  check_balance, simulate, with_signed, execute_live, rejected,
}
use mobius_searcher.Execution.Live.Answers.{Result-cases}
use mobius_searcher.Execution.Live.Conduct.{Since, landed_conduct}

abbrev pub Sends : Call → Type 0
Sends (sent ts a) = Unit
Sends (simulated t a) = ⊥
Sends (balance_read a) = ⊥
Sends (polled i a) = ⊥
Sends (status_read i a) = ⊥

-- The two calls before the sending, the latest first, and their answers.
abbrev pub checks_of : String → ℕ → List Call
checks_of text before = balance_read (ok before) ∷ simulated text (ok none) ∷ []

-- Sent once, after these checks: rejected, or accepted and watched to its outcome.
abbrev pub SentOnce : String → List String → ℕ → LiveOutcome → List Call → Type 0
SentOnce text signatures before o calls =
    ((e : String) × (o ≡ not_sent (rejected e))
      × (calls ≡ sent (text ∷ []) (err e) ∷ checks_of text before))
    ⊎ ((u : Bundle) × ((u.before ≡ before) × (u.signatures ≡ signatures))
        × Since u (sent (text ∷ []) (ok u.id) ∷ checks_of text before) o calls)

abbrev pub Unsent : LiveOutcome → List Call → Type 0
Unsent o calls = ((why : NotSent) × (o ≡ not_sent why)) × All (λ c. ¬ Sends c) calls

module _ {W : Type 0} (b : LiveBackend W) (p : LiveParams) (permit : SendPermit) where
  -- What is said of the result of a stage.
  abbrev Stage : (LiveOutcome → List Call → Type 0) → Ended W → Type 0
  Stage P e = (o : LiveOutcome) (r : Run W) → e ≡ some (o, r) → P o r.calls

  done :
      (P : LiveOutcome → List Call → Type 0) (o : LiveOutcome) (r : Run W)
      → P o r.calls
      → Stage P (some (o, r))
  done P o r h o' r' e =
      let q : ◌≡◌ {A = LiveOutcome × Run W} (o, r) (o', r') = cc in
      subst (λ (y : LiveOutcome × Run W). P y.0 y.1.calls) q h

  send_once :
      (fuel : ℕ) (text : String) (signatures : List String) (before : ℕ) (r : Run W)
      → r.calls ≡ checks_of text before
      → Stage (SentOnce text signatures before) (send b p permit fuel text signatures before r)
  unfolding send
  send_once fuel text signatures before r e o r' h =
      let a = (b.send_bundle permit (text ∷ []) r.world).0 in
      let w = (b.send_bundle permit (text ∷ []) r.world).1 in
      elim (Result-cases a) [
        | inr (why, ea) ↦
            let now = rw (ea, send) at h in
            let calls = ap (λ (cs : List Call). sent (text ∷ []) a ∷ cs) e in
            let there : sent (text ∷ []) a ∷ r.calls
                ≡ sent (text ∷ []) (err why) ∷ checks_of text before =
              subst
                (λ (t : Result String).
                  sent (text ∷ []) a ∷ r.calls ≡ sent (text ∷ []) t ∷ checks_of text before)
                ea calls in
            done (SentOnce text signatures before) (not_sent (rejected why))
              (record { world = w; calls = sent (text ∷ []) a ∷ r.calls }) (inl (why, refl, there))
              o r' now
        | inl (id, ea) ↦
            let now = rw (ea, send) at h in
            let u : Bundle = record {
              id = id;
              signatures = signatures;
              before = before;
              started = b.clock r.world;
            } in
            let calls = ap (λ (cs : List Call). sent (text ∷ []) a ∷ cs) e in
            let there : sent (text ∷ []) a ∷ r.calls
                ≡ sent (text ∷ []) (ok id) ∷ checks_of text before =
              subst
                (λ (t : Result String).
                  sent (text ∷ []) a ∷ r.calls ≡ sent (text ∷ []) t ∷ checks_of text before)
                ea calls in
            inr (
              u,
              (refl, refl),
              landed_conduct b p u (sent (text ∷ []) (ok id) ∷ checks_of text before) fuel
                  (record { world = w; calls = sent (text ∷ []) a ∷ r.calls }) [] o r' (there, tt)
                  now,
            )
      ]

  -- Nothing was sent, or it was sent once from a wallet with enough.
  abbrev Funded : String → List String → LiveOutcome → List Call → Type 0
  Funded text signatures o calls =
      Unsent o calls
      ⊎ ((before : ℕ) × (p.min_wallet_lamports ≤ before) × SentOnce text signatures before o calls)

  balance_checked :
      (fuel : ℕ) (text : String) (signatures : List String) (r : Run W)
      → r.calls ≡ simulated text (ok none) ∷ []
      → Stage (Funded text signatures) (check_balance b p permit fuel text signatures r)
  unfolding check_balance
  balance_checked fuel text signatures r e o r' h =
      let a = (b.balance r.world).0 in
      let w = (b.balance r.world).1 in
      let r1 : Run W = record { world = w; calls = balance_read a ∷ r.calls } in
      let calls = ap (λ (cs : List Call). balance_read a ∷ cs) e in
      let quiet : All (λ c. ¬ Sends c) (balance_read a ∷ r.calls) =
        rw e ((λ x. x), ((λ x. x), tt)) in
      elim (Result-cases a) [
        | inr (why, ea) ↦
            let now = rw (ea, check_balance) at h in
            done (Funded text signatures) (not_sent (NotSent.balance_unknown why)) r1
              (inl ((NotSent.balance_unknown why, refl), quiet)) o r' now
        | inl (before, ea) ↦
            let now = rw (ea, check_balance) at h in
            let there =
              subst
                (λ (t : Result ℕ).
                  balance_read a ∷ r.calls ≡ balance_read t ∷ simulated text (ok none) ∷ [])
                ea calls in
            elim (Bool-cases (leb p.min_wallet_lamports before)) [
              | inl enough ↦
                  let on = rw enough at now in
                  inr (before, ground arith, send_once fuel text signatures before r1 there o r' on)
              | inr low ↦
                  let on = rw low at now in
                  let why = NotSent.wallet_low before p.min_wallet_lamports in
                  done (Funded text signatures) (not_sent why) r1 (inl ((why, refl), quiet)) o r' on
            ]
      ]

  simulation_checked :
      (fuel : ℕ) (text : String) (signatures : List String) (r : Run W)
      → r.calls ≡ []
      → Stage (Funded text signatures) (simulate b p permit fuel text signatures r)
  unfolding simulate
  simulation_checked fuel text signatures r e o r' h =
      let a = (b.simulate_signed text r.world).0 in
      let w = (b.simulate_signed text r.world).1 in
      let r1 : Run W = record { world = w; calls = simulated text a ∷ r.calls } in
      let calls = ap (λ (cs : List Call). simulated text a ∷ cs) e in
      let quiet : All (λ c. ¬ Sends c) (simulated text a ∷ r.calls) = rw e ((λ x. x), tt) in
      elim (Result-cases a) [
        | inr (why, ea) ↦
            let now = rw (ea, simulate) at h in
            done (Funded text signatures) (not_sent (NotSent.simulation_unavailable why)) r1
              (inl ((NotSent.simulation_unavailable why, refl), quiet)) o r' now
        | inl (found, ea) ↦ elim (Option-cases found) [
          | inr (why, ef) ↦
              let now = rw (ea, ef, simulate) at h in
              done (Funded text signatures) (not_sent (NotSent.simulation_failed why)) r1
                (inl ((NotSent.simulation_failed why, refl), quiet)) o r' now
          | inl ef ↦
              let now = rw (ea, ef, simulate) at h in
              let clean = ea ∙ ap (λ (t : Option String). ok t) ef in
              let there =
                subst
                  (λ (t : Result (Option String)).
                    simulated text a ∷ r.calls ≡ simulated text t ∷ [])
                  clean calls in
              balance_checked fuel text signatures r1 there o r' now
        ]
      ]

  abbrev OneSigned : Signed → LiveOutcome → List Call → Type 0
  OneSigned s o calls =
      Unsent o calls
      ⊎ ((text : String) × (signatures : List String) × (before : ℕ) × (s
            ≡ signed (text ∷ []) signatures)
          × (p.min_wallet_lamports ≤ before)
          × SentOnce text signatures before o calls)

  widen :
      (text : String) (signatures : List String) (o : LiveOutcome) (calls : List Call)
      → Funded text signatures o calls
      → OneSigned (signed (text ∷ []) signatures) o calls
  widen text signatures o calls (inl quiet) = inl quiet
  widen text signatures o calls (inr (before, enough, once)) =
      inr (text, signatures, before, refl, enough, once)

  signed_checked :
      (fuel : ℕ) (s : Signed) (w : W)
      → Stage (OneSigned s) (with_signed b p permit fuel s (record { world = w; calls = [] }))
  unfolding with_signed
  signed_checked fuel (unsigned e) w o r' h =
      done (OneSigned (unsigned e)) (not_sent e) (record { world = w; calls = [] })
        (inl ((e, refl), tt)) o r' h
  signed_checked fuel (signed (text ∷ []) signatures) w o r' h =
      widen text signatures o r'.calls
        (simulation_checked fuel text signatures (record { world = w; calls = [] }) refl o r' h)
  signed_checked fuel (signed [] signatures) w o r' h =
      done (OneSigned (signed [] signatures)) (not_sent NotSent.several_transactions)
        (record { world = w; calls = [] }) (inl ((NotSent.several_transactions, refl), tt)) o r' h
  signed_checked fuel (signed (text ∷ text' ∷ texts) signatures) w o r' h =
      done (OneSigned (signed (text ∷ text' ∷ texts) signatures))
        (not_sent NotSent.several_transactions) (record { world = w; calls = [] })
        (inl ((NotSent.several_transactions, refl), tt)) o r' h

  -- What was known when it was sent: the block height leaves the margin, and exactly one transaction
  -- was signed.
  abbrev pub Fresh : ℕ → W → Type 0
  Fresh last_valid w =
      (height : ℕ) × (b.block_height w ≡ some height)
      × ((height + p.blockhash_margin) % 2 ^ 64 < last_valid)

  -- Whatever the backend answers, `execute_live` either sends nothing, and says so, or sends once:
  -- the one transaction that it signed, at a block height with the margin, after a simulation of the
  -- same bytes without an error and with at least the minimum in the wallet. A rejected sending is
  -- the outcome. After an accepted one it only asks, and its outcome rests on the answers: landed on
  -- a landed status and, later, a confirmed or finalized one without an error, with the difference
  -- of the two balances; failed on the report of it; or timed out.
  pub execute_live-careful :
      {Tx : Type 0} (k : Wallet Tx) (fuel last_valid : ℕ) (txs : List Tx) (w : W) (o : LiveOutcome)
      (r' : Run W)
      → execute_live b p permit k fuel last_valid txs (record { world = w; calls = [] })
        ≡ some (o, r')
      → Unsent o r'.calls
        ⊎ (Fresh last_valid w
            × ((text : String) × (signatures : List String) × (before : ℕ) × (sign_all k txs
                  ≡ signed (text ∷ []) signatures)
                × (p.min_wallet_lamports ≤ before)
                × SentOnce text signatures before o r'.calls))
  unfolding execute_live
  execute_live-careful k fuel last_valid txs w o r' h =
      let r : Run W = record { world = w; calls = [] } in
      elim (Option-cases (b.block_height w)) [
        | inl eh ↦
            let now = rw (eh, execute_live) at h in
            inl (
              done Unsent (not_sent NotSent.height_unknown) r ((NotSent.height_unknown, refl), tt) o
                r' now)
        | inr (height, eh) ↦
            let now = rw (eh, execute_live) at h in
            elim (Bool-cases (ltb ((height + p.blockhash_margin) % 2 ^ 64) last_valid)) [
              | inr old ↦
                  let on = rw old at now in
                  let why = NotSent.blockhash_expiring height last_valid in
                  inl (done Unsent (not_sent why) r ((why, refl), tt) o r' on)
              | inl fresh ↦
                  let on = rw fresh at now in
                  elim (signed_checked fuel (sign_all k txs) w o r' on) [
                    | inl quiet ↦ inl quiet
                    | inr once ↦ inr ((height, eh, ltb→lt _ _ fresh), once)
                  ]
            ]
      ]
