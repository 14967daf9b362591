-- ===== src/Telemetry/Health.antt =====
-- crates/telemetry/src/health.rs: what is kept of the calls of each remote service, and how it is
-- judged. The time is an argument of each call, and the text of a time of day a parameter. The
-- counters wrap at their width.
pub mod Judged
pub mod Apart
mod Tests
use Prim.Native.String.{String, ◌++◌}
use mobius_searcher.Base.{
  ℕ, zero, suc, ◌+◌, ◌/◌, ◌%◌, ◌^◌, Bool, true, false, ◌&&◌, ◌||◌, not, Option, none, some, List,
  [], ◌∷◌, length, get_elem?, ltb, leb, ◌==◌, if◌then◌else◌,
}
use mobius_searcher.Base.Int.{ℤ, pos, ltb_ℤ}
use mobius_searcher.Base.Words.{wrap_i64}
use mobius_searcher.Base.Decimal.{decimal}
use mobius_searcher.Core.Units.{Ppm, ratio}
use mobius_searcher.Core.Time.{Ts, age_ms, plus_ms}
use mobius_searcher.Core.Records.{ServiceId, ServiceState, ServiceSnapshot}

abbrev pub ring : ℕ
ring = 120

-- One entry of `recent`.
pub record Entry : Type 0 where
  pub at : Ts
  pub latency_ms : ℕ
  pub ok : Bool

pub record Stats : Type 0 where
  pub requests : ℕ
  pub errors : ℕ
  pub rate_limited : ℕ
  pub consecutive_errors : ℕ
  pub recent : List Entry
  pub last_success : Option Ts
  pub last_error : Option (Ts × String)
  pub backoff_until : Option Ts
  pub quota_remaining : Option ℤ
  pub disabled : Bool
  pub connected : Option Bool

abbrev pub fresh : Stats
fresh = record {
  requests = 0;
  errors = 0;
  rate_limited = 0;
  consecutive_errors = 0;
  recent = [];
  last_success = none;
  last_error = none;
  backoff_until = none;
  quota_remaining = none;
  disabled = false;
  connected = none;
}

abbrev pub idx : ServiceId → ℕ
idx ServiceId.jupiter = 0
idx ServiceId.rpc = 1
idx ServiceId.web_socket = 2
idx ServiceId.jito = 3
idx ServiceId.db = 4
idx ServiceId.market_feed = 5

abbrev pub drop_first : List Entry → List Entry
drop_first [] = []
drop_first (e ∷ es) = es

pub push_back : List Entry → Entry → List Entry
push_back [] x = x ∷ []
push_back (e ∷ es) x = e ∷ push_back es x

-- `Telemetry::push_recent`
pub push_recent : List Entry → Entry → List Entry
unfolding push_back
push_recent es x = push_back (if length es == ring then drop_first es else es) x

-- `record_ok`, `record_err`, `record_rate_limited` and the setters, each with the time of its call.
pub data Report : Type 0 where
  succeeded : Ts → ℕ → Report
  erred : Ts → Option ℕ → String → Report
  limited : Ts → ℕ → Report
  quota : ℤ → Report
  disables : Bool → Report
  connects : Bool → Report

abbrev or_none : Option ℕ → ℕ
or_none none = 0
or_none (some l) = l

unfoldable pub reported : Report → Stats → Stats
unfolding push_recent
reported (succeeded now latency) st = record st {
  requests = (st.requests + 1) % 2 ^ 64;
  consecutive_errors = 0;
  last_success = some now;
  recent = push_recent st.recent (record { at = now; latency_ms = latency; ok = true });
}
reported (erred now latency message) st = record st {
  requests = (st.requests + 1) % 2 ^ 64;
  errors = (st.errors + 1) % 2 ^ 64;
  consecutive_errors = (st.consecutive_errors + 1) % 2 ^ 32;
  last_error = some (now, message);
  recent = push_recent st.recent (record { at = now; latency_ms = or_none latency; ok = false });
}
reported (limited now backoff_ms) st = record st {
  requests = (st.requests + 1) % 2 ^ 64;
  rate_limited = (st.rate_limited + 1) % 2 ^ 64;
  backoff_until = some (plus_ms now (wrap_i64 (pos backoff_ms)));
  last_error = some (now, "429 rate limited; backing off " ++ (decimal backoff_ms ++ " ms"));
  recent = push_recent st.recent (record { at = now; latency_ms = 0; ok = false });
}
reported (quota remaining) st = record st { quota_remaining = some remaining }
reported (disables b) st = record st { disabled = b }
reported (connects b) st = record st { connected = some b }

-- The statistics of every service, by its index.
abbrev pub Telemetry : Type 0
Telemetry = ℕ → Stats

-- `Telemetry::with`
pub with_service : ServiceId → (Stats → Stats) → Telemetry → Telemetry
with_service s f t i = if i == idx s then f (t i) else t i

-- The entries of the last minute.
abbrev pub last_minute : Ts → List Entry → List Entry
last_minute now [] = []
last_minute now (e ∷ es) =
    let rest = last_minute now es in if leb (age_ms e.at now) 60_000 then e ∷ rest else rest

abbrev pub failures : List Entry → ℕ
failures [] = 0
failures (e ∷ es) = let rest = failures es in if e.ok then rest else suc rest

abbrev pub latencies : List Entry → List ℕ
latencies [] = []
latencies (e ∷ es) = let rest = latencies es in if e.ok then e.latency_ms ∷ rest else rest

-- `sort_unstable` on numbers, by insertion.
abbrev insert : ℕ → List ℕ → List ℕ
insert x [] = x ∷ []
insert x (y ∷ ys) = let rest = insert x ys in if leb x y then x ∷ y ∷ ys else y ∷ rest

abbrev sort : List ℕ → List ℕ
sort [] = []
sort (x ∷ xs) = insert x (sort xs)

abbrev or_zero : Option Ppm → Ppm
or_zero none = pos 0
or_zero (some p) = p

pub error_rate : List Entry → Ppm
error_rate window = or_zero (ratio (pos (failures window)) (pos (length window)))

abbrev pub still : Ts → Option Ts → Option Ts
still now none = none
still now (some u) = if ltb_ℤ now u then some u else none

abbrev pub is_some : Option Ts → Bool
is_some none = false
is_some (some t) = true

abbrev pub connected_as : Bool → Option Bool → Bool
connected_as b none = false
connected_as true (some c) = c
connected_as false (some c) = not c

abbrev pub recent_success : Ts → Option Ts → Bool
recent_success now none = false
recent_success now (some t) = leb (age_ms t now) 120_000

pub judged : Stats → Ts → ServiceState
unfolding error_rate
judged st now =
    let window = last_minute now st.recent in
    if st.disabled
    then ServiceState.disabled
    else if is_some (still now st.backoff_until)
    then ServiceState.rate_limited
    else if connected_as false st.connected || leb 3 st.consecutive_errors
    then ServiceState.down
    else if leb 3 (length window) && ltb_ℤ (pos 200_000) (error_rate window)
    then ServiceState.degraded
    else if connected_as true st.connected || recent_success now st.last_success
    then ServiceState.ok
    else ServiceState.idle

abbrev last_of : List ℕ → Option ℕ
last_of [] = none
last_of (x ∷ []) = some x
last_of (x ∷ y ∷ ys) = last_of (y ∷ ys)

-- `Telemetry::snapshot`
pub snapshot : (Ts → String) → ServiceId → Stats → Ts → ServiceSnapshot
unfolding judged error_rate
snapshot hms s st now =
    let window = last_minute now st.recent in
    let sorted = sort (latencies window) in
    record {
      service = some s;
      state = judged st now;
      last_latency_ms = last_of (latencies st.recent);
      p50_latency_ms = get_elem? sorted (length sorted / 2);
      requests = st.requests;
      errors = st.errors;
      rate_limited = st.rate_limited;
      error_rate = error_rate window;
      backoff_until = still now st.backoff_until;
      last_success = st.last_success;
      last_error = elim st.last_error [ none ↦ none | some (t, m) ↦ some (hms t ++ (" " ++ m)) ];
      quota_remaining = st.quota_remaining;
      recent_latency = latencies st.recent;
    }
