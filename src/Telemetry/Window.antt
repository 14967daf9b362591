-- ===== src/Telemetry/Window.antt =====
-- crates/telemetry/src/ratelimit.rs: `WindowLimiter`, at most `capacity` requests in any window.
-- An instant and a duration are numbers of nanoseconds. The limiter's mutex is taken once per
-- call, so a call is a function of the state inside.
pub mod Safety
mod Tests
use Prim.Native.String.{String}
use mobius_searcher.Base.{
  ℕ, zero, suc, ◌+◌, ◌-◌, ◌*◌, ◌/◌, ◌%◌, ◌^◌, Bool, true, false, ◌&&◌, Option, none, some, List, [],
  ◌∷◌, ◌++◌, length, get_elem?, ltb, leb, ◌==◌, if◌then◌else◌, max, min,
}
use mobius_searcher.Base.Int.{ℤ, pos, pos_part, ◌+ℤ◌, ◌-ℤ◌, ltb_ℤ, leb_ℤ}
use mobius_searcher.Base.Words.{u32_max, wrap_i64}

abbrev pub ms : ℕ
ms = 1_000_000

-- `WindowInner`
pub record WindowInner : Type 0 where
  pub window : ℕ
  pub capacity : ℕ
  pub configured : ℕ
  pub safety : ℕ
  pub sent : List ℕ
  pub server : Option (ℕ × ℤ)
  pub server_reset : Option ℕ
  pub blocked_until : Option ℕ
  pub attempt : ℕ
  pub total_429 : ℕ

-- `WindowLimiter::new`
unfoldable pub new : ℕ → ℕ → ℕ → WindowInner
new capacity window safety = record {
  window = window;
  capacity = max capacity 1;
  configured = max capacity 1;
  safety = safety;
  sent = [];
  server = none;
  server_reset = none;
  blocked_until = none;
  attempt = 0;
  total_429 = 0;
}

abbrev pub scale : WindowInner → ℕ → ℕ
scale g x = (x * g.capacity / g.configured) % 2 ^ 32

-- `WindowLimiter::headroom`: the slots kept free, scaled to the learned capacity.
unfoldable pub headroom : WindowInner → ℕ → ℕ
headroom g reserve =
    let safety = if ltb 0 g.safety then max (scale g g.safety) 1 else 0 in
    (safety + scale g reserve) % 2 ^ 32

-- `WindowLimiter::prune`: sends as old as the window leave at the front.
unfoldable pub prune_sent : ℕ → ℕ → List ℕ → List ℕ
prune_sent window now [] = []
prune_sent window now (t ∷ ts) = if leb window (now - t) then prune_sent window now ts else t ∷ ts

abbrev pub prune : WindowInner → ℕ → WindowInner
prune g now = record g { sent = prune_sent g.window now g.sent }

abbrev pub is_blocked : WindowInner → ℕ → Bool
is_blocked g now = elim g.blocked_until [ none ↦ false | some u ↦ ltb now u ]

abbrev pub reached : Option ℕ → ℕ → ℕ
reached none now = 0
reached (some r) now = if leb r now then 1 else 0

abbrev pub count_after : ℕ → List ℕ → ℕ
count_after reference [] = 0
count_after reference (t ∷ ts) = (if ltb reference t then 1 else 0) + count_after reference ts

-- What our own count leaves, and what the last report of the gateway leaves while it is fresh.
unfoldable pub local_free : WindowInner → ℕ → ℕ
local_free g reserve = g.capacity - headroom g reserve - length g.sent

unfoldable pub server_free : WindowInner → ℕ → ℕ → ℕ × ℤ → ℕ
server_free g now reserve (reference, remaining) =
    pos_part (
      wrap_i64 (
        remaining
        +ℤ pos (reached g.server_reset now)
        -ℤ pos (count_after reference g.sent)
        -ℤ pos (headroom g reserve)))
    % 2 ^ 32

-- `available_locked`, after the block test and `prune`
unfoldable pub free_slots : WindowInner → ℕ → ℕ → ℕ
free_slots g now reserve = elim g.server [
  | none ↦ local_free g reserve
  | some r ↦
      if ltb (now - r.0) g.window
      then min (local_free g reserve) (server_free g now reserve r)
      else local_free g reserve
]

-- `available_locked`: a blocked limiter is not pruned.
unfoldable pub available : WindowInner → ℕ → ℕ → WindowInner × ℕ
available g now reserve =
    if is_blocked g now then (g, 0) else (prune g now, free_slots (prune g now) now reserve)

abbrev or_else : Option ℕ → Option ℕ → Option ℕ
or_else none b = b
or_else (some a) b = some a

abbrev filter_after : ℕ → Option ℕ → Option ℕ
filter_after now none = none
filter_after now (some r) = if ltb now r then some r else none

abbrev report_end : WindowInner → Option ℕ
report_end g = elim g.server [ none ↦ none | some r ↦ some (r.0 + g.window) ]

abbrev sent_end : WindowInner → ℕ → Option ℕ
sent_end g i = elim (get_elem? g.sent i) [ none ↦ none | some t ↦ some (t + g.window) ]

abbrev instant_or : ℕ → Option ℕ → ℕ
instant_or d none = d
instant_or d (some a) = a

-- When a slot frees, if too few are free now.
unfoldable pub slot_after : WindowInner → ℕ → ℕ → ℕ → ℕ
slot_after g now reserve need =
    let limit = g.capacity - headroom g reserve in
    let free = limit - length g.sent in
    let at =
      if ltb limit need
      then none
      else if leb need free
      then or_else (filter_after now g.server_reset) (report_end g)
      else sent_end g (need - free - 1) in
    max (instant_or (now + g.window) at) (now + ms)

-- `next_slot_locked`
unfoldable pub next_slot : WindowInner → ℕ → ℕ → ℕ → WindowInner × ℕ
next_slot g now reserve need =
    let (g', n) = available g now reserve in
    if is_blocked g now
    then (g, instant_or now g.blocked_until)
    else if leb need n
    then (g', now)
    else (g', slot_after g' now reserve need)

-- The outcome of `try_acquire`: a slot, or the time to wait.
pub data Acquired : Type 0 where
  granted : Acquired
  wait : ℕ → Acquired

-- `WindowLimiter::try_acquire`
unfoldable pub try_acquire : WindowInner → ℕ → ℕ → WindowInner × Acquired
try_acquire g now reserve =
    let (g', n) = available g now reserve in
    let (h, at) = next_slot g' now reserve 1 in
    if ltb 0 n then (record g' { sent = g'.sent ++ now ∷ [] }, granted) else (h, wait (at - now))

abbrev later : Option ℕ → ℕ → Option ℕ
later none until = some until
later (some u) until = some (max u until)

-- `WindowLimiter::on_server_report`, with the i64 sum of the report wrapping.
unfoldable pub on_server_report : WindowInner → ℕ → ℕ → ℤ → ℤ → ℕ → WindowInner
on_server_report g reference now current remaining reset_in =
    let cap = wrap_i64 (current +ℤ remaining) in
    let newer : Bool = elim g.server [ none ↦ true | some r ↦ leb r.0 reference ] in
    record g {
      capacity = if ltb_ℤ (pos 0) cap then min (pos_part cap) u32_max else g.capacity;
      server = if newer then some (reference, remaining) else g.server;
      server_reset = if newer then some (now + reset_in) else g.server_reset;
      blocked_until =
          if leb_ℤ remaining (pos 0)
          then later g.blocked_until (now + max reset_in (100 * ms))
          else g.blocked_until;
    }

-- `backoff_delay`, over `Duration::mul_f64` by the jitter, which is not modelled: `jittered` is
-- that product.
unfoldable pub backoff_delay : (ℕ → ℕ) → ℕ → ℕ → ℕ → Option ℕ → ℕ
backoff_delay jittered attempt base cap hint =
    let exp = min (base * 2 ^ min attempt 16) cap in
    let d = exp / 2 + jittered (exp / 2) in elim hint [ none ↦ d | some h ↦ max d (min h cap) ]

-- `WindowLimiter::on_rate_limited`
unfoldable pub on_rate_limited : (ℕ → ℕ) → WindowInner → ℕ → Option ℕ → WindowInner × ℕ
on_rate_limited jittered g now hint =
    let d : ℕ = elim hint [
      | none ↦ backoff_delay jittered g.attempt (500 * ms) g.window none
      | some h ↦ h
    ] in
    (
      record g {
        attempt = min (g.attempt + 1) u32_max;
        total_429 = g.total_429 + 1;
        blocked_until = later g.blocked_until (now + max d (100 * ms));
      },
      d,
    )

-- `WindowLimiter::on_success`
unfoldable pub on_success : WindowInner → WindowInner
on_success g = record g { attempt = 0 }

-- `WindowLimiter::binding`: the limit that binds now, as its label.
unfoldable pub binding : WindowInner → ℕ → ℕ → WindowInner × String
binding g now reserve =
    let (g', n) = available g now reserve in
    if is_blocked g now
    then (g, "backoff")
    else (g', if local_free g' reserve == 0 then "local" else if n == 0 then "gateway" else "none")
