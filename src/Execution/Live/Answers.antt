-- ===== src/Execution/Live/Answers.antt =====
-- The answers of the backend that crates/execution/src/live.rs tells apart.
use Prim.Native.String.{String}
use text.Mathlib.Text.{◌==◌ as str_eq}
use text.Mathlib.TextEquality.{eq_iff}
use mobius_searcher.Base.{
  ℕ, ◌≡◌, refl, true, ◌||◌, Option, none, some, arith, ◌⊎◌, inl, inr, Bool-cases,
}
use mobius_searcher.Base.Results.{Result, ok, err}
use mobius_searcher.Jito.Permit.{InflightStatus}
use mobius_searcher.Execution.Live.{
  BundleConfirmation, Verdict, errored, confirmed, unclear, verdict, Progress, landed_at, gave_up,
  waiting, progress,
}

abbrev pub IsFinal : String → Type 0
IsFinal c = (c ≡ "confirmed") ⊎ (c ≡ "finalized")

pub Result-cases :
    {A : Type 0} (a : Result A) → ((x : A) × (a ≡ ok x)) ⊎ ((e : String) × (a ≡ err e))
Result-cases (ok x) = inl (x, refl)
Result-cases (err e) = inr (e, refl)

pub verdict_cases :
    (v : Verdict) → ((e : String) × (v ≡ errored e)) ⊎ ((v ≡ confirmed) ⊎ (v ≡ unclear))
verdict_cases (errored e) = inl (e, refl)
verdict_cases confirmed = inr (inl refl)
verdict_cases unclear = inr (inr refl)

pub errored_answer :
    (a : Result BundleConfirmation) (e : String)
    → verdict a ≡ errored e
    → (c : Option String) × (a ≡ ok (some (c, some e)))
unfolding verdict
errored_answer (ok (some (c, some f))) e h = (c, cc)
errored_answer (ok (some (some c, none))) e h = absurd (ground arith)
errored_answer (ok (some (none, none))) e h = cc
errored_answer (ok none) e h = cc
errored_answer (err f) e h = cc

text-IsFinal : (c : String) → (str_eq c "confirmed" || str_eq c "finalized") ≡ true → IsFinal c
text-IsFinal c h = elim (Bool-cases (str_eq c "confirmed")) [
  | inl e ↦ inl ((eq_iff c "confirmed").0 e)
  | inr n ↦ inr ((eq_iff c "finalized").0 (ground arith))
]

pub confirmed_answer :
    (a : Result BundleConfirmation)
    → verdict a ≡ confirmed
    → (c : String) × (a ≡ ok (some (some c, none))) × IsFinal c
unfolding verdict
confirmed_answer (ok (some (c, some f))) h = cc
confirmed_answer (ok (some (some c, none))) h = (c, refl, text-IsFinal c (ground arith))
confirmed_answer (ok (some (none, none))) h = cc
confirmed_answer (ok none) h = cc
confirmed_answer (err f) h = cc

pub progress_cases :
    (v : Progress) → ((s : ℕ) × (v ≡ landed_at s)) ⊎ ((v ≡ gave_up) ⊎ (v ≡ waiting))
progress_cases (landed_at s) = inl (s, refl)
progress_cases gave_up = inr (inl refl)
progress_cases waiting = inr (inr refl)

pub landed_answer :
    (a : Result (Option InflightStatus)) (s : ℕ)
    → progress a ≡ landed_at s
    → a ≡ ok (some (InflightStatus.landed s))
unfolding progress
landed_answer (ok (some (InflightStatus.landed slot))) s h = cc
landed_answer (ok (some InflightStatus.failed)) s h = cc
landed_answer (ok (some InflightStatus.invalid)) s h = cc
landed_answer (ok (some InflightStatus.pending)) s h = cc
landed_answer (ok none) s h = cc
landed_answer (err e) s h = cc

pub failed_answer :
    (a : Result (Option InflightStatus))
    → progress a ≡ gave_up
    → a ≡ ok (some InflightStatus.failed)
unfolding progress
failed_answer (ok (some (InflightStatus.landed slot))) h = cc
failed_answer (ok (some InflightStatus.failed)) h = refl
failed_answer (ok (some InflightStatus.invalid)) h = cc
failed_answer (ok (some InflightStatus.pending)) h = cc
failed_answer (ok none) h = cc
failed_answer (err e) h = cc
