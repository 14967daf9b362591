-- ===== src/Core/Units.antt =====
-- crates/core/src/units.rs: integer money. `Ppm` and `UsdMicros` wrap an i64 and are that integer;
-- u64 and u128 values are native numbers. A `?` on a checked operation is a bind of `Option`.
-- Products of a u32 or u64 with a u64 are taken in u128, where they fit, so no wrap is written.
pub mod Rounding
pub mod Text
use mobius_searcher.Base.{
  ℕ, zero, suc, ◌+◌, ◌-◌, ◌*◌, ◌/◌, ◌%◌, ◌^◌, Bool, true, false, ◌&&◌, Option, none, some, List, [],
  ◌∷◌, ltb, leb, ◌==◌, if◌then◌else◌, ◌>>=◌, ◌>>◌, guard, max, min,
}
use mobius_searcher.Base.Int.{
  ℤ, pos, negsuc, pos_part, neg_part, ◌+ℤ◌, ◌*ℤ◌, leb_ℤ, ltb_ℤ, max_ℤ, div_euclid,
}
use mobius_searcher.Base.Words.{
  u64_max, u128_max, fits, saturate, fits_i64, fits_i128, saturate_i64, div_ceil,
}

abbrev pub base_fee_lamports_per_signature : ℕ
base_fee_lamports_per_signature = 5_000

abbrev pub micro_lamports_per_lamport : ℕ
micro_lamports_per_lamport = 1_000_000

abbrev pub max_compute_units_per_tx : ℕ
max_compute_units_per_tx = 1_400_000

abbrev pub token_account_rent_lamports : ℕ
token_account_rent_lamports = 1_488_440

abbrev pub jito_min_tip_lamports : ℕ
jito_min_tip_lamports = 1_000

abbrev pub ppm_one : ℕ
ppm_one = 1_000_000

-- `struct Ppm(i64)` and `struct UsdMicros(i64)`
abbrev pub Ppm : Type 0
Ppm = ℤ

abbrev pub UsdMicros : Type 0
UsdMicros = ℤ

-- `Ppm::ratio` on two i128 values
unfoldable pub ratio : ℤ → ℤ → Option Ppm
ratio num den = do
  guard (ltb_ℤ (pos 0) den)
  scaled ← fits_i128 (num *ℤ pos ppm_one)
  fits_i64 (div_euclid scaled (pos_part den))

-- `Ppm::of`
unfoldable pub of : Ppm → ℕ → ℤ
of p amount = div_euclid (pos amount *ℤ p) ppm_one

-- `UsdMicros::saturating_add`
unfoldable pub saturating_add : UsdMicros → UsdMicros → UsdMicros
saturating_add a b = saturate_i64 (a +ℤ b)

pub record UsdPrice : Type 0 where
  pub micros_per_token : ℕ

-- `10i128.checked_pow` and `10u128.checked_pow`
abbrev pub checked_pow10 : ℕ → ℕ → Option ℕ
checked_pow10 top decimals = fits top (10 ^ decimals)

-- `UsdPrice::value` of an i128 amount
unfoldable pub value : UsdPrice → ℤ → ℕ → Option UsdMicros
value price atoms decimals = do
  scale ← checked_pow10 (2 ^ 127 - 1) decimals
  product ← fits_i128 (atoms *ℤ pos price.micros_per_token)
  fits_i64 (div_euclid product scale)

-- `UsdPrice::from_trade`
unfoldable pub from_trade : ℕ → ℕ → ℕ → ℕ → Option UsdPrice
from_trade in_atoms in_dec out_atoms out_dec = if in_atoms == 0 then none else do
  a ← fits u128_max (out_atoms * 1_000_000)
  in_scale ← checked_pow10 u128_max in_dec
  num ← fits u128_max (a * in_scale)
  out_scale ← checked_pow10 u128_max out_dec
  den ← fits u128_max (in_atoms * out_scale)
  price ← fits u64_max (num / den)
  some (record { micros_per_token = price })

unfoldable pub priority_fee_lamports : ℕ → ℕ → ℕ
priority_fee_lamports cu_limit cu_price =
    saturate u64_max (div_ceil (cu_limit * cu_price) micro_lamports_per_lamport)

-- `Ord::clamp` panics when its bounds are out of order, which is `none`.
abbrev pub clamp : ℕ → ℕ → ℕ → Option ℕ
clamp lo hi x =
    if ltb hi lo then none else some (if ltb x lo then lo else if ltb hi x then hi else x)

unfoldable pub cu_limit_with_margin : ℕ → Ppm → Option ℕ
cu_limit_with_margin units_used margin =
    let want = div_ceil (units_used * (ppm_one + pos_part margin)) ppm_one in
    clamp units_used max_compute_units_per_tx want
