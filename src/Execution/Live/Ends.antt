-- ===== src/Execution/Live/Ends.antt =====
-- The loops of `execute_live`, crates/execution/src/live.rs, against the clock.
use Prim.Native.String.{String}
use mobius_searcher.Base.{
  ℕ, zero, suc, ◌+◌, ◌*◌, ◌/◌, ◌%◌, ◌^◌, ◌≤◌, ◌<◌, ◌≡◌, refl, false, some, List, [], ◌∷◌, ltb, leb,
  arith, inl, inr, Bool-cases, Option-cases,
}
use mobius_searcher.Jito.Permit.{SendPermit}
use mobius_searcher.Execution.Live.{
  LiveBackend, LiveParams, Wallet, LiveOutcome, Run, Bundle, Ended, verdict, progress, elapsed,
  slept, asked_status, await_confirmed, asked_inflight, await_landed, Signed, signed, unsigned,
  sign_all, send, check_balance, simulate, with_signed, execute_live,
}
use mobius_searcher.Execution.Live.Answers.{Result-cases, verdict_cases, progress_cases}

-- The clock does not go back over a call, and a sleep takes its time.
pub record Timed {W : Type 0} (b : LiveBackend W) : Type 0 where
  pub sleeps : (d : ℕ) (w : W) → b.clock w + d ≤ b.clock (b.sleep d w)
  pub sending :
      (permit : SendPermit) (ts : List String) (w : W)
      → b.clock w ≤ b.clock (b.send_bundle permit ts w).1
  pub polling : (id : String) (w : W) → b.clock w ≤ b.clock (b.inflight id w).1
  pub reading : (id : String) (w : W) → b.clock w ≤ b.clock (b.bundle_status id w).1

abbrev pub Returns : {W : Type 0} → Ended W → Type 0
Returns {W} e = (x : LiveOutcome × Run W) × (e ≡ some x)

module _ {W : Type 0} (b : LiveBackend W) (p : LiveParams) (t : Timed b) where
  -- Fuel for the passes that are left until the timeout, and for the last one.
  abbrev Enough : ℕ → Bundle → Run W → Type 0
  Enough passes u r = u.started + p.timeout < b.clock r.world + passes * p.poll

  -- A pass that is not the last one leaves enough for the others.
  pass_left :
      (passes poll due now next : ℕ)
      → due < now + suc passes * poll
      → now + poll ≤ next
      → due < next + passes * poll
  pass_left passes poll due now next h k = grind arith

  -- A pass returns if the rest does, where the time is not up.
  confirmed_pass :
      (fuel : ℕ) (u : Bundle) (slot : ℕ) (r : Run W)
      → (ltb p.timeout (elapsed b p u (asked_status b p u r)) ≡ false
          → Returns (await_confirmed b p fuel u slot (slept b p (asked_status b p u r))))
      → Returns (await_confirmed b p (suc fuel) u slot r)
  unfolding await_confirmed
  confirmed_pass fuel u slot r rest =
      elim (verdict_cases (verdict (b.bundle_status u.id r.world).0)) [
        | inl (e, ve) ↦ rw (ve, await_confirmed) (_, refl)
        | inr (inl vc) ↦ rw (vc, await_confirmed) (_, refl)
        | inr (inr vu) ↦ elim (Bool-cases (ltb p.timeout (elapsed b p u (asked_status b p u r)))) [
          | inl late ↦ rw (vu, late, await_confirmed) (_, refl)
          | inr early ↦ rw (vu, early, await_confirmed) (rest early)
        ]
      ]

  confirmed_ends :
      (passes : ℕ) (u : Bundle) (slot : ℕ) (r : Run W)
      → Enough passes u r
      → Returns (await_confirmed b p (suc passes) u slot r)
  confirmed_ends zero u slot r h =
      let later = t.reading u.id r.world in
      confirmed_pass zero u slot r (λ early. absurd (ground arith))
  confirmed_ends (suc passes) u slot r h =
      let r1 = asked_status b p u r in
      let later = t.reading u.id r.world in
      let woken = t.sleeps p.poll r1.world in
      confirmed_pass (suc passes) u slot r (λ early. confirmed_ends passes u slot (slept b p r1) (
        pass_left passes p.poll (u.started + p.timeout) (b.clock r.world)
          (b.clock (slept b p r1).world) h (omega arith)))

  landed_pass :
      (fuel : ℕ) (u : Bundle) (r : Run W)
      → (ltb p.timeout (elapsed b p u r) ≡ false
          → ((slot : ℕ)
              → Returns (await_confirmed b p fuel u slot (asked_inflight b p u (slept b p r))))
            × Returns (await_landed b p fuel u (asked_inflight b p u (slept b p r))))
      → Returns (await_landed b p (suc fuel) u r)
  unfolding await_landed
  landed_pass fuel u r rest = elim (Bool-cases (ltb p.timeout (elapsed b p u r))) [
    | inl late ↦ rw (late, await_landed) (_, refl)
    | inr early ↦ elim (progress_cases (progress (b.inflight u.id (slept b p r).world).0)) [
      | inl (s, pl) ↦ rw (early, pl, await_landed) ((rest early).0 s)
      | inr (inl pf) ↦ rw (early, pf, await_landed) (_, refl)
      | inr (inr pw) ↦ rw (early, pw, await_landed) ((rest early).1)
    ]
  ]

  landed_ends :
      (passes : ℕ) (u : Bundle) (r : Run W)
      → Enough passes u r
      → Returns (await_landed b p (suc passes) u r)
  landed_ends zero u r h = landed_pass zero u r (λ early. absurd (ground arith))
  landed_ends (suc passes) u r h =
      let r1 = slept b p r in
      let r2 = asked_inflight b p u r1 in
      let woken = t.sleeps p.poll r.world in
      let later = t.polling u.id r1.world in
      let left =
        pass_left passes p.poll (u.started + p.timeout) (b.clock r.world) (b.clock r2.world) h
          (omega arith) in
      landed_pass (suc passes) u r
        (λ early. (λ slot. confirmed_ends passes u slot r2 left, landed_ends passes u r2 left))

  -- The passes of the poll interval that fit in the timeout, and one more.
  abbrev pub passes : ℕ
  passes = p.timeout / p.poll + 1

  passes_enough : 0 < p.poll → p.timeout < passes * p.poll
  passes_enough h = grind arith

  module _ (permit : SendPermit) (polls : 0 < p.poll) where
    send_ends :
        (text : String) (signatures : List String) (before : ℕ) (r : Run W)
        → Returns (send b p permit (suc passes) text signatures before r)
    unfolding send
    send_ends text signatures before r =
        let later = t.sending permit (text ∷ []) r.world in
        elim (Result-cases (b.send_bundle permit (text ∷ []) r.world).0) [
          | inr (why, e) ↦ rw (e, send) (_, refl)
          | inl (id, e) ↦ rw (e, send) (landed_ends passes _ _ (omega (arith, passes_enough polls)))
        ]

    balance_ends :
        (text : String) (signatures : List String) (r : Run W)
        → Returns (check_balance b p permit (suc passes) text signatures r)
    unfolding check_balance
    balance_ends text signatures r = elim (Result-cases (b.balance r.world).0) [
      | inr (why, e) ↦ rw (e, check_balance) (_, refl)
      | inl (before, e) ↦ elim (Bool-cases (leb p.min_wallet_lamports before)) [
        | inl enough ↦ rw (e, enough, check_balance) (send_ends text signatures before _)
        | inr low ↦ rw (e, low, check_balance) (_, refl)
      ]
    ]

    simulate_ends :
        (text : String) (signatures : List String) (r : Run W)
        → Returns (simulate b p permit (suc passes) text signatures r)
    unfolding simulate
    simulate_ends text signatures r = elim (Result-cases (b.simulate_signed text r.world).0) [
      | inr (why, e) ↦ rw (e, simulate) (_, refl)
      | inl (found, e) ↦ elim (Option-cases found) [
        | inr (why, f) ↦ rw (e, f, simulate) (_, refl)
        | inl f ↦ rw (e, f, simulate) (balance_ends text signatures _)
      ]
    ]

    signed_ends : (s : Signed) (r : Run W) → Returns (with_signed b p permit (suc passes) s r)
    unfolding with_signed
    signed_ends (unsigned e) r = (_, refl)
    signed_ends (signed (text ∷ []) signatures) r = simulate_ends text signatures r
    signed_ends (signed [] signatures) r = (_, refl)
    signed_ends (signed (text ∷ text' ∷ texts) signatures) r = (_, refl)

    -- With a poll interval that is not zero, on a clock that does not go back and a sleep that takes
    -- its time, `execute_live` returns, whatever the backend answers: its loops make at most as many
    -- passes as intervals fit in the timeout, and two more.
    pub execute_live-Returns :
        {Tx : Type 0} (k : Wallet Tx) (last_valid : ℕ) (txs : List Tx) (r : Run W)
        → Returns (execute_live b p permit k (suc passes) last_valid txs r)
    unfolding execute_live
    execute_live-Returns k last_valid txs r = elim (Option-cases (b.block_height r.world)) [
      | inl e ↦ rw (e, execute_live) (_, refl)
      | inr (height, e) ↦
          elim (Bool-cases (ltb ((height + p.blockhash_margin) % 2 ^ 64) last_valid)) [
            | inr old ↦ rw (e, old, execute_live) (_, refl)
            | inl fresh ↦ rw (e, fresh, execute_live) (signed_ends (sign_all k txs) r)
          ]
    ]
