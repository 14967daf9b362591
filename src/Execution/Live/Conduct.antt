-- ===== src/Execution/Live/Conduct.antt =====
-- What `execute_live` of crates/execution/src/live.rs asks of the backend, in which order, and what
-- its outcome rests on.
use Prim.Native.String.{String}
use mobius_searcher.Base.{
  ℕ, zero, suc, ◌≡◌, refl, ap, subst, Option, none, some, List, [], ◌∷◌, ◌++◌, ltb, All, ◌⊎◌, inl,
  inr, Bool-cases,
}
use mobius_searcher.Base.Results.{Result, ok}
use mobius_searcher.Jito.Permit.{InflightStatus}
use mobius_searcher.Execution.Live.Answers.{
  IsFinal, verdict_cases, errored_answer, confirmed_answer, progress_cases, landed_answer,
  failed_answer,
}
use mobius_searcher.Execution.Live.{
  LiveBackend, LiveParams, BundleConfirmation, landed_with_error, reported_failed, LiveOutcome,
  not_sent, landed, failed, timed_out, Call, simulated, balance_read, sent, polled, status_read,
  Run, Bundle, verdict, progress, realized, elapsed, latency_ms, slept, reconciled, asked_status,
  await_confirmed, asked_inflight, await_landed,
}

-- A call that only asks, and about the bundle `id` where it is about one.
abbrev pub Asks : String → Call → Type 0
Asks id (simulated t a) = ⊥
Asks id (sent ts a) = ⊥
Asks id (balance_read a) = Unit
Asks id (polled i a) = i ≡ id
Asks id (status_read i a) = i ≡ id

abbrev pub Seen : Call → List Call → Type 0
Seen c [] = ⊥
Seen c (x ∷ xs) = (x ≡ c) ⊎ Seen c xs

-- The answers, the latest first, on which the outcome for a bundle that was accepted rests.
abbrev pub RestsOn : Bundle → LiveOutcome → List Call → Type 0
RestsOn u (not_sent why) cs = ⊥
RestsOn u (timed_out id) cs = id ≡ u.id
RestsOn u (failed id reported_failed ms) cs =
    (id ≡ u.id) × ((rest : List Call) × (cs ≡ polled u.id (ok (some InflightStatus.failed)) ∷ rest))
RestsOn u (failed id (landed_with_error e) ms) cs =
    (id ≡ u.id)
    × ((c : Option String) × (rest : List Call) × (cs
          ≡ status_read u.id (ok (some (c, some e))) ∷ rest))
RestsOn u (landed id slot signatures gain ms) cs =
    ((id ≡ u.id) × (signatures ≡ u.signatures))
    × ((a : Result ℕ) × (c : String) × (rest : List Call) × (cs
          ≡ balance_read a ∷ status_read u.id (ok (some (some c, none))) ∷ rest)
        × IsFinal c
        × (gain ≡ realized u.before a)
        × Seen (polled u.id (ok (some (InflightStatus.landed slot)))) rest)

-- The calls since `base` only ask, and the outcome rests on them.
abbrev pub Since : Bundle → List Call → LiveOutcome → List Call → Type 0
Since u base o calls = (cs : List Call) × (calls ≡ cs ++ base) × All (Asks u.id) cs × RestsOn u o cs

module _ {W : Type 0} (b : LiveBackend W) (p : LiveParams) (u : Bundle) (base : List Call) where
  -- The calls of the run since `base`, and that they only ask.
  abbrev Asking : Run W → List Call → Type 0
  Asking r cs = (r.calls ≡ cs ++ base) × All (Asks u.id) cs

  -- What holds of a result holds of its parts.
  finish :
      (x : LiveOutcome × Run W) {o : LiveOutcome} {r' : Run W}
      → Since u base x.0 x.1.calls
      → some x ≡ some (o, r')
      → Since u base o r'.calls
  finish x {o} {r'} s h =
      let e : x ≡ (o, r') = cc in
      subst (λ (y : LiveOutcome × Run W). Since u base y.0 y.1.calls) e s

  confirmed_conduct :
      (fuel slot : ℕ) (r : Run W) (cs : List Call) (o : LiveOutcome) (r' : Run W)
      → Asking r cs
      → Seen (polled u.id (ok (some (InflightStatus.landed slot)))) cs
      → await_confirmed b p fuel u slot r ≡ some (o, r')
      → Since u base o r'.calls
  unfolding await_confirmed
  confirmed_conduct zero slot r cs o r' (eq, asks) seen h = cc
  confirmed_conduct (suc fuel) slot r cs o r' (eq, asks) seen h =
      let a = (b.bundle_status u.id r.world).0 in
      let more = ap (λ (xs : List Call). status_read u.id a ∷ xs) eq in
      elim (verdict_cases (verdict a)) [
        | inl (e, ve) ↦
            let h' = rw (ve, await_confirmed) at h in
            let (c, ea) = errored_answer a e ve in
            let r1 = asked_status b p u r in
            finish (failed u.id (landed_with_error e) (latency_ms b p u r1), r1)
              (
                status_read u.id a ∷ cs,
                more,
                (refl, asks),
                (refl, (c, cs, ap (λ (t : Result BundleConfirmation). status_read u.id t ∷ cs) ea)),
              )
              h'
        | inr (inl vc) ↦
            let h' = rw (vc, await_confirmed) at h in
            let (c, ea, final) = confirmed_answer a vc in
            let r1 = asked_status b p u r in
            let after = (b.balance r1.world).0 in
            finish (reconciled b p u slot r1)
              (
                balance_read after ∷ status_read u.id a ∷ cs,
                ap (λ (xs : List Call). balance_read after ∷ xs) more,
                (tt, (refl, asks)),
                (
                  (refl, refl),
                  (
                    after,
                    c,
                    cs,
                    ap
                        (λ (t : Result BundleConfirmation).
                          balance_read after ∷ status_read u.id t ∷ cs)
                        ea,
                    final,
                    refl,
                    seen,
                  ),
                ),
              )
              h'
        | inr (inr vu) ↦
            let h' = rw (vu, await_confirmed) at h in
            let r1 = asked_status b p u r in
            elim (Bool-cases (ltb p.timeout (elapsed b p u r1))) [
              | inl late ↦
                  let now = rw late at h' in
                  finish (timed_out u.id, r1) (status_read u.id a ∷ cs, more, (refl, asks), refl)
                    now
              | inr early ↦
                  let later = rw early at h' in
                  confirmed_conduct fuel slot (slept b p r1) (status_read u.id a ∷ cs) o r'
                    (more, (refl, asks)) (inr seen) later
            ]
      ]

  pub landed_conduct :
      (fuel : ℕ) (r : Run W) (cs : List Call) (o : LiveOutcome) (r' : Run W)
      → Asking r cs
      → await_landed b p fuel u r ≡ some (o, r')
      → Since u base o r'.calls
  unfolding await_landed
  landed_conduct zero r cs o r' (eq, asks) h = cc
  landed_conduct (suc fuel) r cs o r' (eq, asks) h =
      let r1 = slept b p r in
      let r2 = asked_inflight b p u r1 in
      let a = (b.inflight u.id r1.world).0 in
      let more = ap (λ (xs : List Call). polled u.id a ∷ xs) eq in
      elim (Bool-cases (ltb p.timeout (elapsed b p u r))) [
        | inl late ↦
            let now = rw (late, await_landed) at h in
            finish (timed_out u.id, r) (cs, eq, asks, refl) now
        | inr early ↦
            let h' = rw (early, await_landed) at h in
            elim (progress_cases (progress a)) [
              | inl (s, pl) ↦
                  let on = rw pl at h' in
                  let seen =
                    ap (λ (t : Result (Option InflightStatus)). polled u.id t)
                      (landed_answer a s pl) in
                  confirmed_conduct fuel s r2 (polled u.id a ∷ cs) o r' (more, (refl, asks))
                    (inl seen) on
              | inr (inl pf) ↦
                  let on = rw pf at h' in
                  let e =
                    ap (λ (t : Result (Option InflightStatus)). polled u.id t ∷ cs)
                      (failed_answer a pf) in
                  finish (failed u.id reported_failed (latency_ms b p u r2), r2)
                    (polled u.id a ∷ cs, more, (refl, asks), (refl, (cs, e))) on
              | inr (inr pw) ↦
                  let on = rw pw at h' in
                  landed_conduct fuel r2 (polled u.id a ∷ cs) o r' (more, (refl, asks)) on
            ]
      ]
