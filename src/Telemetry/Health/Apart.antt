-- ===== src/Telemetry/Health/Apart.antt =====
-- The services of crates/telemetry/src/health.rs over sequences of reports.
use mathlib.Core.Logic.{ite, if_pos, if_neg}
use mobius_searcher.Base.{
  ℕ, suc, ◌-◌, ◌≤◌, ◌≡◌, ◌≢◌, refl, ap, sym, ◌∙◌, true, false, some, List, [], ◌∷◌, length,
  get_elem?, ◌==◌, arith, Bool-cases, inl, inr,
}
use mobius_searcher.Core.Records.{ServiceId}
use mobius_searcher.Telemetry.Health.{
  ring, Entry, Stats, idx, drop_first, push_back, push_recent, Report, succeeded, erred, limited,
  quota, disables, connects, reported, Telemetry, with_service,
}

length-push_back : (es : List Entry) (x : Entry) → length (push_back es x) ≡ suc (length es)
unfolding push_back
length-push_back [] x = omega arith
length-push_back (e ∷ es) x = omega (arith, length-push_back es x)

length-drop_first : (es : List Entry) → length (drop_first es) ≡ length es - 1
length-drop_first [] = omega arith
length-drop_first (e ∷ es) = omega arith

length-push_recent :
    (es : List Entry) (x : Entry) → length es ≤ ring → length (push_recent es x) ≤ ring
unfolding push_recent
length-push_recent es x h = elim (Bool-cases (length es == ring)) [
  | inl full ↦ rw full (omega (arith, length-push_back (drop_first es) x, length-drop_first es))
  | inr room ↦ rw room (ground (arith, length-push_back es x))
]

length-reported :
    (r : Report) (st : Stats) → length st.recent ≤ ring → length (reported r st).recent ≤ ring
unfolding reported
length-reported (succeeded now latency) st h = length-push_recent st.recent _ h
length-reported (erred now latency message) st h = length-push_recent st.recent _ h
length-reported (limited now backoff_ms) st h = length-push_recent st.recent _ h
length-reported (quota n) st h = h
length-reported (disables b) st h = h
length-reported (connects b) st h = h

abbrev pub Call : Type 0
Call = ServiceId × Report

-- All calls, the first one first.
abbrev pub run : List Call → Telemetry → Telemetry
run [] t = t
run ((s, r) ∷ calls) t = run calls (with_service s (reported r) t)

abbrev by_index : List ServiceId
by_index =
    ServiceId.jupiter ∷ ServiceId.rpc ∷ ServiceId.web_socket ∷ ServiceId.jito ∷ ServiceId.db
    ∷ ServiceId.market_feed ∷ []

idx-inverse : (s : ServiceId) → get_elem? by_index (idx s) ≡ some s
idx-inverse ServiceId.jupiter = refl
idx-inverse ServiceId.rpc = refl
idx-inverse ServiceId.web_socket = refl
idx-inverse ServiceId.jito = refl
idx-inverse ServiceId.db = refl
idx-inverse ServiceId.market_feed = refl

idx_inj : (a b : ServiceId) → idx a ≡ idx b → a ≡ b
idx_inj a b e =
    let g = sym (idx-inverse a) ∙ (ap (λ (i : ℕ). get_elem? by_index i) e ∙ idx-inverse b) in cc

pub ServiceId-discrete : Discrete ServiceId
ServiceId-discrete = hlevel

-- The reports about one service alone, in their order, on its statistics.
abbrev pub run_own : ServiceId → List Call → Stats → Stats
run_own s [] st = st
run_own s ((a, r) ∷ calls) st = run_own s calls (ite (ServiceId-discrete a s) (reported r st) st)

other_index : (s a : ServiceId) → (a ≢ s) → (idx s == idx a) ≡ false
other_index s a other = elim (Bool-cases (idx s == idx a)) [
  | inr differ ↦ differ
  | inl same ↦ let e : idx a ≡ idx s = ground arith in absurd (other (idx_inj a s e))
]

one_call :
    (s a : ServiceId) (r : Report) (t : Telemetry)
    → with_service a (reported r) t (idx s)
      ≡ ite (ServiceId-discrete a s) (reported r (t (idx s))) (t (idx s))
unfolding with_service
one_call s a r t = elim (ServiceId-discrete a s) [
  | yes same ↦
      let e : (idx s == idx a) ≡ true = let k = ap idx same in ground arith in
      rw (if_pos (ServiceId-discrete a s) same, e) refl
  | no other ↦
      let e : (idx s == idx a) ≡ false = other_index s a other in
      rw (if_neg (ServiceId-discrete a s) other, e) refl
]

own_calls :
    (s : ServiceId) (calls : List Call) (t : Telemetry)
    → run calls t (idx s) ≡ run_own s calls (t (idx s))
own_calls s [] t = refl
own_calls s ((a, r) ∷ calls) t =
    own_calls s calls (with_service a (reported r) t) ∙ ap (run_own s calls) (one_call s a r t)

either_ring :
    {P : Type 0} (d : Dec P) (r : Report) (st : Stats)
    → length st.recent ≤ ring
    → length (ite d (reported r st) st).recent ≤ ring
either_ring (yes p) r st h = length-reported r st h
either_ring (no p) r st h = h

own_ring :
    (s : ServiceId) (calls : List Call) (st : Stats)
    → length st.recent ≤ ring
    → length (run_own s calls st).recent ≤ ring
own_ring s [] st h = h
own_ring s ((a, r) ∷ calls) st h =
    own_ring s calls (ite (ServiceId-discrete a s) (reported r st) st)
      (either_ring (ServiceId-discrete a s) r st h)

-- After any calls, the statistics of a service are those of the reports about it alone, in their
-- order, and hold at most 120 recent entries, if they did before.
pub services_apart :
    (calls : List Call) (t : Telemetry) (s : ServiceId)
    → length (t (idx s)).recent ≤ ring
    → (run calls t (idx s) ≡ run_own s calls (t (idx s)))
      × (length (run calls t (idx s)).recent ≤ ring)
services_apart calls t s h =
    let e = own_calls s calls t in (e, rw e (own_ring s calls (t (idx s)) h))
