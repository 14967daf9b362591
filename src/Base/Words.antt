-- ===== src/Base/Words.antt =====
-- Machine integers: the bounds of each width, and what the checked, saturating and wrapping
-- operations of the source do at them.
use mobius_searcher.Base.{
  ℕ, ◌+◌, ◌-◌, ◌/◌, ◌%◌, ◌^◌, ◌≡◌, ◌&&◌, Option, none, some, arith, ltb, leb, if◌then◌else◌,
}
use mobius_searcher.Base.Int.{ℤ, pos, negsuc, leb_ℤ, clamp_ℤ, pos_part, ◌≤ℤ◌, ◌+ℤ◌}

abbrev pub u8_max : ℕ
u8_max = 2 ^ 8 - 1

abbrev pub u32_max : ℕ
u32_max = 2 ^ 32 - 1

abbrev pub u64_max : ℕ
u64_max = 2 ^ 64 - 1

abbrev pub u128_max : ℕ
u128_max = 2 ^ 128 - 1

abbrev pub i64_max : ℤ
i64_max = pos (2 ^ 63 - 1)

abbrev pub i64_min : ℤ
i64_min = negsuc (2 ^ 63 - 1)

abbrev pub i128_max : ℤ
i128_max = pos (2 ^ 127 - 1)

abbrev pub i128_min : ℤ
i128_min = negsuc (2 ^ 127 - 1)

-- `u64::try_from(x).ok()` and the other checked operations: the value, if it is at most `top`.
abbrev pub fits : ℕ → ℕ → Option ℕ
fits top x = if leb x top then some x else none

-- `x.saturating_…` at the top.
abbrev pub saturate : ℕ → ℕ → ℕ
saturate top x = if leb x top then x else top

-- The value, if it is an i64, or an i128.
abbrev pub fits_i64 : ℤ → Option ℤ
fits_i64 x = if leb_ℤ i64_min x && leb_ℤ x i64_max then some x else none

abbrev pub fits_i128 : ℤ → Option ℤ
fits_i128 x = if leb_ℤ i128_min x && leb_ℤ x i128_max then some x else none

-- `x.saturating_add(y)` on i64 is `saturate_i64 (x +ℤ y)`.
abbrev pub saturate_i64 : ℤ → ℤ
saturate_i64 = clamp_ℤ i64_min i64_max

-- `x as i64`: the low 64 bits, read in two's complement.
abbrev pub signed64 : ℕ → ℤ
signed64 w = if ltb w (2 ^ 63) then pos w else negsuc (2 ^ 64 - w - 1)

unfoldable pub wrap_i64 : ℤ → ℤ
wrap_i64 (pos n) = signed64 (n % 2 ^ 64)
wrap_i64 (negsuc n) = signed64 (2 ^ 64 - 1 - n % 2 ^ 64)

abbrev pub InI64 : ℤ → Type 0
InI64 x = (i64_min ≤ℤ x) × (x ≤ℤ i64_max)

-- The cast keeps a value that is an i64 already.
pub wrap_i64-InI64 : (x : ℤ) → InI64 x → wrap_i64 x ≡ x
unfolding wrap_i64
wrap_i64-InI64 (pos n) h = ground arith
wrap_i64-InI64 (negsuc n) h = ground arith

-- A sum that was cast on the way is the cast of the whole sum.
pub wrap_i64-sum : (a b : ℤ) → wrap_i64 (wrap_i64 a +ℤ b) ≡ wrap_i64 (a +ℤ b)
unfolding wrap_i64 ◌+ℤ◌
wrap_i64-sum (pos a) (pos b) = ground arith
wrap_i64-sum (pos a) (negsuc b) = ground arith
wrap_i64-sum (negsuc a) (pos b) = ground arith
wrap_i64-sum (negsuc a) (negsuc b) = ground arith

-- `a.div_ceil(d)`.
abbrev pub div_ceil : ℕ → ℕ → ℕ
div_ceil a d = (a + (d - 1)) / d

-- `x as i128` of a wider result, as an i128 product or sum wraps.
abbrev pub signed128 : ℕ → ℤ
signed128 w = if ltb w (2 ^ 127) then pos w else negsuc (2 ^ 128 - w - 1)

unfoldable pub wrap_i128 : ℤ → ℤ
wrap_i128 (pos n) = signed128 (n % 2 ^ 128)
wrap_i128 (negsuc n) = signed128 (2 ^ 128 - 1 - n % 2 ^ 128)

-- `x.clamp(0, u64::MAX as i128) as u64`
abbrev pub clamp_u64 : ℤ → ℕ
clamp_u64 x = saturate u64_max (pos_part x)
