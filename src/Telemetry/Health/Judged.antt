-- ===== src/Telemetry/Health/Judged.antt =====
-- When crates/telemetry/src/health.rs shows a service as in order.
use mobius_searcher.Base.{
  ℕ, ◌+◌, ◌*◌, ◌/◌, List, [], ◌∷◌, ltb, if◌then◌else◌, ◌≤◌, ◌<◌, ◌≡◌, ◌≢◌, ◌↔◌, refl, Bool, true,
  false, ◌&&◌, ◌||◌, Option, none, some, length, leb, arith, ◌⊎◌, inl, inr, IfSome, Bool-cases,
  leb→le,
}
use mobius_searcher.Base.Int.{pos, div_euclid, ◌*ℤ◌, ◌≤ℤ◌, ltb_ℤ}
use mobius_searcher.Core.Units.{ratio}
use mobius_searcher.Core.Time.{Ts, age_ms}
use mobius_searcher.Core.Records.{ServiceState}
use mobius_searcher.Telemetry.Health.{
  Entry, Stats, ring, failures, last_minute, error_rate, still, is_some, connected_as,
  recent_success, judged,
}

-- The calls of the last minute, and those of them that failed.
unfoldable pub recent_calls : Ts → List Entry → ℕ
recent_calls now [] = 0
recent_calls now (e ∷ es) =
    let rest = recent_calls now es in if ltb 60_000 (age_ms e.at now) then rest else 1 + rest

unfoldable pub recent_failures : Ts → List Entry → ℕ
recent_failures now [] = 0
recent_failures now (e ∷ es) =
    let rest = recent_failures now es in
    if ltb 60_000 (age_ms e.at now) || e.ok then rest else 1 + rest

length-last_minute :
    (now : Ts) (es : List Entry) → length (last_minute now es) ≡ recent_calls now es
unfolding recent_calls
length-last_minute now [] = refl
length-last_minute now (e ∷ es) = let ih = length-last_minute now es in ground arith

failures-last_minute :
    (now : Ts) (es : List Entry) → failures (last_minute now es) ≡ recent_failures now es
unfolding recent_failures
failures-last_minute now [] = refl
failures-last_minute now (e ∷ es) = let ih = failures-last_minute now es in ground arith

failures-few : (es : List Entry) → failures es ≤ length es
failures-few [] = omega arith
failures-few (e ∷ es) = let ih = failures-few es in ground arith

ratio_small :
    (f n : ℕ) → 3 ≤ n → n ≤ 120 → f ≤ n → ratio (pos f) (pos n) ≡ some (pos (f * 1_000_000 / n))
unfolding ratio ◌*ℤ◌ div_euclid
ratio_small f n some_calls kept le =
    let q : f * 1_000_000 / n ≤ 1_000_000 = grind arith in ground arith

one_in_five : (f n : ℕ) → 3 ≤ n → n ≤ 120 → (f * 1_000_000 / n ≤ 200_000) ↔ (5 * f ≤ n)
one_in_five f n some_calls kept =
    let b : (f * 1_000_000 / n) * n ≤ f * 1_000_000 = grind arith in
    let t : f * 1_000_000 < (f * 1_000_000 / n + 1) * n = grind arith in
    (
      λ h. let m : (f * 1_000_000 / n + 1) * n ≤ 200_001 * n = grind arith in omega (arith, t, m),
      λ h. elim (Bool-cases (leb (f * 1_000_000 / n) 200_000)) [
        | inl low ↦ leb→le (f * 1_000_000 / n) 200_000 low
        | inr high ↦
            let over : 200_001 ≤ f * 1_000_000 / n = ground arith in
            let m : 200_001 * n ≤ (f * 1_000_000 / n) * n = grind arith in
            absurd (omega (arith, m, b, h))
      ],
    )

-- Of at most as many calls as are kept, the rate is at most 200,000 ppm exactly when it is at most
-- one in five.
rate_test :
    (es : List Entry)
    → 3 ≤ length es
    → length es ≤ ring
    → (error_rate es ≤ℤ pos 200_000) ↔ (5 * failures es ≤ length es)
unfolding error_rate
rate_test es some_calls kept =
    let e = ratio_small (failures es) (length es) some_calls kept (failures-few es) in
    let k = one_in_five (failures es) (length es) some_calls kept in
    rw e (λ h. k.0 (omega arith), λ h. omega (arith, k.1 h))

-- A service that can be relied on, as an operator would put it.
pub record InOrder (st : Stats) (now : Ts) : Type 0 where
  pub enabled : st.disabled ≡ false
  pub free : IfSome (λ u. u ≤ℤ now) st.backoff_until
  pub connection : st.connected ≢ some false
  pub no_streak : st.consecutive_errors < 3
  pub mostly :
      (recent_calls now st.recent < 3)
      ⊎ (5 * recent_failures now st.recent ≤ recent_calls now st.recent)
  pub alive :
      (st.connected ≡ some true)
      ⊎ ((t : Ts) × (st.last_success ≡ some t) × (age_ms t now ≤ 120_000))

free_test : (now : Ts) (b : Option Ts) → (is_some (still now b) ≡ false) ↔ IfSome (λ u. u ≤ℤ now) b
free_test now none = (λ h. tt, λ h. refl)
free_test now (some u) = (λ h. ground arith, λ h. ground arith)

lost_test : (c : Option Bool) → (connected_as false c ≡ false) ↔ (c ≢ some false)
lost_test none = (λ h e. cc, λ h. refl)
lost_test (some true) = (λ h e. cc, λ h. refl)
lost_test (some false) = (λ h e. cc, λ h. absurd (h refl))

linked_test : (c : Option Bool) → (connected_as true c ≡ true) ↔ (c ≡ some true)
linked_test none = (λ h. cc, λ h. cc)
linked_test (some true) = (λ h. refl, λ h. refl)
linked_test (some false) = (λ h. cc, λ h. cc)

success_test :
    (now : Ts) (s : Option Ts)
    → (recent_success now s ≡ true) ↔ ((t : Ts) × (s ≡ some t) × (age_ms t now ≤ 120_000))
success_test now none = (λ h. cc, λ (t, e, a). cc)
success_test now (some t) = (
  λ h. (t, refl, ground arith),
  λ (x, e, a). let q : x ≡ t = cc in let b = rw q at a in ground arith,
)

length-last_minute-le : (now : Ts) (es : List Entry) → length (last_minute now es) ≤ length es
length-last_minute-le now [] = omega arith
length-last_minute-le now (e ∷ es) = let ih = length-last_minute-le now es in ground arith

-- The window that is judged, against the calls that are counted.
mostly_test :
    (now : Ts) (es : List Entry)
    → length es ≤ ring
    → ((leb 3 (length (last_minute now es))
          && ltb_ℤ (pos 200_000) (error_rate (last_minute now es)))
        ≡ false)
      ↔ ((recent_calls now es < 3) ⊎ (5 * recent_failures now es ≤ recent_calls now es))
mostly_test now es kept =
    let window = last_minute now es in
    let n = length-last_minute now es in
    let f = failures-last_minute now es in
    let few = length-last_minute-le now es in
    elim (Bool-cases (leb 3 (length window))) [
      | inr short ↦ (λ h. inl (ground arith), λ h. rw short refl)
      | inl enough ↦
          let r = rate_test window (leb→le 3 (length window) enough) (omega arith) in
          (
            λ h. inr (
                let low : error_rate window ≤ℤ pos 200_000 = ground arith in
                omega (arith, n, f, r.0 low)),
            λ h. let low : error_rate window ≤ℤ pos 200_000 = r.1 (ground arith) in ground arith,
          )
    ]

either_test : (a b : Bool) → ((a || b) ≡ true) ↔ ((a ≡ true) ⊎ (b ≡ true))
either_test a b = (λ h. ground arith, λ h. ground arith)

-- With at most 120 entries, as many as are kept, a service is shown as in order exactly when it is
-- enabled, no back-off is left, it is not disconnected, fewer than three calls failed in a row, fewer
-- than three calls are at most 60 s old or at most one in five of these failed, and it is connected
-- or succeeded in the last 120 s.
pub judged-InOrder :
    (st : Stats) (now : Ts)
    → length st.recent ≤ ring
    → (judged st now ≡ ServiceState.ok) ↔ InOrder st now
unfolding judged
judged-InOrder st now kept =
    let f = free_test now st.backoff_until in
    let l = lost_test st.connected in
    let k = linked_test st.connected in
    let r = success_test now st.last_success in
    let window = last_minute now st.recent in
    let m = mostly_test now st.recent kept in
    let e = either_test (connected_as true st.connected) (recent_success now st.last_success) in
    (
      λ h. record {
        enabled = ground arith;
        free = f.0 (ground arith);
        connection = l.0 (ground arith);
        no_streak = ground arith;
        mostly = m.0 (ground arith);
        alive = elim (e.0 (ground arith)) [ inl c ↦ inl (k.0 c) | inr t ↦ inr (r.0 t) ];
      },
      λ o.
          let alive : (connected_as true st.connected ≡ true)
              ⊎ (recent_success now st.last_success ≡ true) =
            elim o.alive [ inl c ↦ inl (k.1 c) | inr t ↦ inr (r.1 t) ] in
          ground
            (arith, o.enabled, f.1 o.free, l.1 o.connection, o.no_streak, m.1 o.mostly, e.1 alive),
    )
