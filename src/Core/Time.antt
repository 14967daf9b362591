-- ===== src/Core/Time.antt =====
-- crates/core/src/time.rs: a timestamp is an i64 of unix microseconds. Differences and sums wrap
-- at 64 bits, as the release build does.
use mobius_searcher.Base.{ℕ, ◌/◌}
use mobius_searcher.Base.Int.{ℤ, pos, pos_part, ◌+ℤ◌, ◌-ℤ◌, ◌*ℤ◌, div_euclid}
use mobius_searcher.Base.Words.{wrap_i64}

-- `struct Ts(i64)`
abbrev pub Ts : Type 0
Ts = ℤ

abbrev pub from_millis : ℤ → Ts
from_millis ms = wrap_i64 (ms *ℤ pos 1_000)

abbrev pub from_secs : ℤ → Ts
from_secs s = wrap_i64 (s *ℤ pos 1_000_000)

-- `Ts::millis`
abbrev pub millis : Ts → ℤ
millis t = div_euclid t 1_000

-- `Ts::age_ms`: the age at `now`, 0 for a time that is still to come.
unfoldable pub age_ms : Ts → Ts → ℕ
age_ms t now = pos_part (wrap_i64 (now -ℤ t)) / 1_000

-- `Ts::plus_ms`
unfoldable pub plus_ms : Ts → ℤ → Ts
plus_ms t ms = wrap_i64 (t +ℤ wrap_i64 (ms *ℤ pos 1_000))
