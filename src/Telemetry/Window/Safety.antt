-- ===== src/Telemetry/Window/Safety.antt =====
-- Sequences of calls of `WindowLimiter`, crates/telemetry/src/ratelimit.rs, with the log of the
-- slots that it grants.
use mobius_searcher.Base.{
  ℕ, ◌+◌, ◌-◌, ◌≤◌, ◌<◌, ◌≡◌, refl, sym, ap, ◌∙◌, Option, List, [], ◌∷◌, ◌++◌, length, ltb, leb,
  if◌then◌else◌, arith, Bool-cases, inl, inr,
}
use mobius_searcher.Base.Int.{ℤ}
use mobius_searcher.Telemetry.Window.{
  WindowInner, new, headroom, prune_sent, prune, is_blocked, free_slots, local_free, available,
  next_slot, Acquired, granted, wait, try_acquire, on_server_report, on_rate_limited, on_success,
}
use mathlib.Core.List.{append_assoc}

-- How many instants of a list lie in the window that ends now.
abbrev pub recent : ℕ → ℕ → List ℕ → ℕ
recent window now [] = 0
recent window now (t ∷ ts) = (if leb window (now - t) then 0 else 1) + recent window now ts

recent-le-length : (window now : ℕ) (ts : List ℕ) → recent window now ts ≤ length ts
recent-le-length window now [] = omega arith
recent-le-length window now (t ∷ ts) = ground (arith, recent-le-length window now ts)

recent-append :
    (window now : ℕ) (xs ys : List ℕ)
    → recent window now (xs ++ ys) ≡ recent window now xs + recent window now ys
recent-append window now [] ys = omega arith
recent-append window now (x ∷ xs) ys = ground (arith, recent-append window now xs ys)

-- A later moment sees no more of the past.
recent-later :
    (window now later : ℕ) (ts : List ℕ)
    → now ≤ later
    → recent window later ts ≤ recent window now ts
recent-later window now later [] h = omega arith
recent-later window now later (t ∷ ts) h = ground (arith, recent-later window now later ts h)

-- What `prune` removes has left the window: counting the pruned list counts the whole.
recent-prune :
    (window now : ℕ) (ts : List ℕ)
    → recent window now ts ≡ recent window now (prune_sent window now ts)
unfolding prune_sent
recent-prune window now [] = refl
recent-prune window now (t ∷ ts) = ground (arith, recent-prune window now ts)

-- A limiter with the log of all the slots that it has granted.
pub record Logged : Type 0 where
  pub inner : WindowInner
  pub log : List ℕ

-- A call, at a time.
pub data Call : Type 0 where
  asks : ℕ → ℕ → Call
  plans : ℕ → ℕ → ℕ → Call
  acquires : ℕ → ℕ → Call
  reports : ℕ → ℕ → ℤ → ℤ → ℕ → Call
  limited : ℕ → Option ℕ → Call
  succeeds : ℕ → Call

abbrev pub time : Call → ℕ
time (asks now reserve) = now
time (plans now reserve need) = now
time (acquires now reserve) = now
time (reports reference now current remaining reset_in) = now
time (limited now hint) = now
time (succeeds now) = now

abbrev pub Ordered : ℕ → List Call → Type 0
Ordered clock [] = Unit
Ordered clock (c ∷ cs) = (clock ≤ time c) × Ordered (time c) cs

abbrev pub last_time : ℕ → List Call → ℕ
last_time clock [] = clock
last_time clock (c ∷ cs) = last_time (time c) cs

abbrev log_of : List ℕ → ℕ → Acquired → List ℕ
log_of log now granted = log ++ now ∷ []
log_of log now (wait d) = log

module _ (jittered : ℕ → ℕ) where
  unfoldable pub step : Logged → Call → Logged
  step s (asks now reserve) = record s { inner = (available s.inner now reserve).0 }
  step s (plans now reserve need) = record s { inner = (next_slot s.inner now reserve need).0 }
  step s (acquires now reserve) =
      let (g, r) = try_acquire s.inner now reserve in record { inner = g; log = log_of s.log now r }
  step s (reports reference now current remaining reset_in) = record s {
    inner = on_server_report s.inner reference now current remaining reset_in;
  }
  step s (limited now hint) = record s { inner = (on_rate_limited jittered s.inner now hint).0 }
  step s (succeeds now) = record s { inner = on_success s.inner }

  unfoldable pub run : Logged → List Call → Logged
  run s [] = s
  run s (c ∷ cs) = run (step s c) cs

-- The log ends in the sends that the limiter still counts, and the rest has left the window.
abbrev Counted : ℕ → ℕ → List ℕ → List ℕ → Type 0
Counted window clock log sent = (old : List ℕ) × (log ≡ old ++ sent) × (recent window clock old ≡ 0)

prune_sent-split :
    (window now : ℕ) (ts : List ℕ)
    → (gone : List ℕ) × (ts ≡ gone ++ prune_sent window now ts) × (recent window now gone ≡ 0)
unfolding prune_sent
prune_sent-split window now [] = ([], refl, refl)
prune_sent-split window now (t ∷ ts) = elim (Bool-cases (leb window (now - t))) [
  | inl left ↦
      let (gone, e, z) = prune_sent-split window now ts in
      (t ∷ gone, rw left (ap (λ r. t ∷ r) e), rw left (omega (arith, z)))
  | inr kept ↦ ([], rw kept refl, refl)
]

Counted-later :
    (window clock now : ℕ) (log sent : List ℕ)
    → clock ≤ now
    → Counted window clock log sent
    → Counted window now log sent
Counted-later window clock now log sent h (old, e, z) =
    (old, e, omega (arith, recent-later window clock now old h))

Counted-prune :
    (window now : ℕ) (log sent : List ℕ)
    → Counted window now log sent
    → Counted window now log (prune_sent window now sent)
Counted-prune window now log sent (old, e, z) =
    let (gone, eg, zg) = prune_sent-split window now sent in
    (
      old ++ gone,
      e ∙ ap (λ r. old ++ r) eg ∙ sym (append_assoc old gone (prune_sent window now sent)),
      omega (arith, recent-append window now old gone),
    )

Counted-grant :
    (window now : ℕ) (log sent : List ℕ)
    → Counted window now log sent
    → Counted window now (log ++ now ∷ []) (sent ++ now ∷ [])
Counted-grant window now log sent (old, e, z) =
    (old, ap (λ r. r ++ now ∷ []) e ∙ append_assoc old sent (now ∷ []), z)

abbrev pub Kept : ℕ → List ℕ → WindowInner → Type 0
Kept now log g = Counted g.window now log g.sent

available-Kept :
    (g : WindowInner) (log : List ℕ) (now reserve : ℕ)
    → Kept now log g
    → Kept now log (available g now reserve).0
unfolding available
available-Kept g log now reserve k = elim (Bool-cases (is_blocked g now)) [
  | inl blocked ↦ rw (blocked, available) k
  | inr clear ↦ rw (clear, available) (Counted-prune g.window now log g.sent k)
]

next_slot-Kept :
    (g : WindowInner) (log : List ℕ) (now reserve need : ℕ)
    → Kept now log g
    → Kept now log (next_slot g now reserve need).0
unfolding next_slot
next_slot-Kept g log now reserve need k = elim (Bool-cases (is_blocked g now)) [
  | inl blocked ↦ rw (blocked, next_slot) k
  | inr clear ↦ elim (Bool-cases (leb need (available g now reserve).1)) [
    | inl enough ↦ rw (clear, enough, next_slot) (available-Kept g log now reserve k)
    | inr few ↦ rw (clear, few, next_slot) (available-Kept g log now reserve k)
  ]
]

try_acquire-Kept :
    (g : WindowInner) (log : List ℕ) (now reserve : ℕ)
    → Kept now log g
    → let (h, r) = try_acquire g now reserve in Kept now (log_of log now r) h
unfolding try_acquire
try_acquire-Kept g log now reserve k = elim (Bool-cases (ltb 0 (available g now reserve).1)) [
  | inl free ↦
      rw (free, try_acquire)
        (Counted-grant (available g now reserve).0.window now log (available g now reserve).0.sent
          (available-Kept g log now reserve k))
  | inr full ↦
      rw (full, try_acquire)
        (next_slot-Kept (available g now reserve).0 log now reserve 1
          (available-Kept g log now reserve k))
]

step-Kept :
    (jittered : ℕ → ℕ) (s : Logged) (c : Call)
    → Kept (time c) s.log s.inner
    → Kept (time c) (step jittered s c).log (step jittered s c).inner
unfolding step on_server_report on_rate_limited on_success
step-Kept jittered s (asks now reserve) k = available-Kept s.inner s.log now reserve k
step-Kept jittered s (plans now reserve need) k = next_slot-Kept s.inner s.log now reserve need k
step-Kept jittered s (acquires now reserve) k = try_acquire-Kept s.inner s.log now reserve k
step-Kept jittered s (reports reference now current remaining reset_in) k = k
step-Kept jittered s (limited now hint) k = k
step-Kept jittered s (succeeds now) k = k

run-Kept :
    (jittered : ℕ → ℕ) (s : Logged) (clock : ℕ) (cs : List Call)
    → Ordered clock cs
    → Kept clock s.log s.inner
    → Kept (last_time clock cs) (run jittered s cs).log (run jittered s cs).inner
unfolding run
run-Kept jittered s clock [] o k = k
run-Kept jittered s clock (c ∷ cs) o k =
    run-Kept jittered (step jittered s c) (time c) cs o.1 (
      step-Kept jittered s c (Counted-later s.inner.window clock (time c) s.log s.inner.sent o.0 k))

abbrev pub start : ℕ → ℕ → ℕ → Logged
start capacity window safety = record { inner = new capacity window safety; log = [] }

free-room :
    (g : WindowInner) (now reserve : ℕ)
    → 0 < free_slots g now reserve
    → length g.sent + 1 + headroom g reserve ≤ g.capacity
unfolding free_slots local_free
free-room g now reserve h = ground arith

available-room :
    (g : WindowInner) (log : List ℕ) (now reserve : ℕ)
    → Kept now log g
    → 0 < (available g now reserve).1
    → recent g.window now (log ++ now ∷ []) + headroom (prune g now) reserve ≤ g.capacity
unfolding available
available-room g log now reserve (old, e, z) h = elim (Bool-cases (is_blocked g now)) [
  | inl blocked ↦ absurd (ground arith)
  | inr clear ↦
      let room = free-room (prune g now) now reserve (ground arith) in
      let p = recent-prune g.window now g.sent in
      let l = recent-le-length g.window now (prune_sent g.window now g.sent) in
      rw e (
        ground (
          arith,
          recent-append g.window now (old ++ g.sent) (now ∷ []),
          recent-append g.window now old g.sent,
        ))
]

-- The limiter after calls from its start.
abbrev pub after : (ℕ → ℕ) → ℕ → ℕ → ℕ → List Call → Logged
after jittered capacity window safety cs = run jittered (start capacity window safety) cs

-- Whenever a slot is granted, after any calls at times that do not go back, the slots granted in
-- the window that ends now, this one included, and the slots kept free are within the capacity.
pub window_safe :
    (jittered : ℕ → ℕ) (capacity window safety : ℕ) (cs : List Call) (now reserve : ℕ)
    → Ordered 0 cs
    → last_time 0 cs ≤ now
    → (try_acquire (after jittered capacity window safety cs).inner now reserve).1 ≡ granted
    → recent
          (after jittered capacity window safety cs).inner.window
          now
          ((after jittered capacity window safety cs).log ++ now ∷ [])
        + headroom (prune (after jittered capacity window safety cs).inner now) reserve
      ≤ (after jittered capacity window safety cs).inner.capacity
unfolding try_acquire
window_safe jittered capacity window safety cs now reserve o le g =
    let s = after jittered capacity window safety cs in
    let k =
      run-Kept jittered (start capacity window safety) 0 cs o (unfold new in ([], refl, refl)) in
    let k' = Counted-later s.inner.window (last_time 0 cs) now s.log s.inner.sent le k in
    available-room s.inner s.log now reserve k' (ground arith)
