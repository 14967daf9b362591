-- ===== src/Core/Units/Rounding.antt =====
-- Which way the conversions of units.rs round, and when they refuse.
use native.Mathlib.Nat.{one-le-pow}
use mobius_searcher.Base.{ℕ, ◌+◌, ◌*◌, ◌/◌, ◌^◌, ◌<◌, ◌≤◌, ◌≡◌, some, arith, ◌⊎◌, min}
use mobius_searcher.Base.Int.{ℤ, pos, pos_part, ◌*ℤ◌, ◌<ℤ◌, IsFloor, div_euclid-IsFloor}
use mobius_searcher.Base.Words.{u64_max, div_ceil, InI64}
use mobius_searcher.Core.Units.{
  Ppm, ppm_one, ratio, of, UsdPrice, value, from_trade, priority_fee_lamports, cu_limit_with_margin,
  max_compute_units_per_tx, micro_lamports_per_lamport,
}

-- A rounded-up quotient.
pub div_ceil_bounds : (n d : ℕ) → 0 < d → (n ≤ div_ceil n d * d) × (div_ceil n d * d < n + d)
div_ceil_bounds n d h = (grind arith, grind arith)

-- An edge is never rounded up: the ratio, where there is one, is the floor of num / den in millionths,
-- an i64, and den is positive.
pub ratio-IsFloor :
    (num den : ℤ) (q : Ppm)
    → ratio num den ≡ some q
    → (pos 0 <ℤ den) × IsFloor q (num *ℤ pos ppm_one) (pos_part den) × InI64 q
unfolding ratio
ratio-IsFloor num den q h = ground (arith, div_euclid-IsFloor (num *ℤ pos ppm_one) (pos_part den))

-- The priority fee is the exact fee rounded up, cut at the top of u64.
pub priority_fee-ceil :
    (cu_limit cu_price : ℕ)
    → let fee = priority_fee_lamports cu_limit cu_price in
      (fee ≤ u64_max)
      × (fee * micro_lamports_per_lamport < cu_limit * cu_price + micro_lamports_per_lamport)
      × ((fee ≡ u64_max) ⊎ (cu_limit * cu_price ≤ fee * micro_lamports_per_lamport))
unfolding priority_fee_lamports
priority_fee-ceil cu_limit cu_price = ground arith

-- Up to the transaction's limit, the request is at least what was used and at most the limit, and
-- it has the whole margin or is the limit.
pub cu_limit-covers :
    (used : ℕ) (margin : Ppm)
    → used ≤ max_compute_units_per_tx
    → (limit : ℕ) × (cu_limit_with_margin used margin ≡ some limit)
      × (used ≤ limit)
      × (limit ≤ max_compute_units_per_tx)
      × ((used * (ppm_one + pos_part margin) ≤ limit * ppm_one)
          ⊎ (limit ≡ max_compute_units_per_tx))
unfolding cu_limit_with_margin
cu_limit-covers used margin h =
    let want = div_ceil (used * (ppm_one + pos_part margin)) ppm_one in
    (min want max_compute_units_per_tx, ground arith, ground arith, ground arith, ground arith)

-- A request is at least what was used.
pub cu_limit-low :
    (used : ℕ) (margin : Ppm) (limit : ℕ)
    → cu_limit_with_margin used margin ≡ some limit
    → used ≤ limit
unfolding cu_limit_with_margin
cu_limit-low used margin limit h = ground arith

-- A share of an amount is rounded towards minus infinity.
pub of-IsFloor : (p : Ppm) (amount : ℕ) → IsFloor (of p amount) (pos amount *ℤ p) ppm_one
unfolding of
of-IsFloor p amount = div_euclid-IsFloor (pos amount *ℤ p) ppm_one (omega arith)

-- A value in dollars is the floor of atoms * price / 10 ^ decimals.
pub value-IsFloor :
    (price : UsdPrice) (atoms : ℤ) (decimals : ℕ) (v : ℤ)
    → value price atoms decimals ≡ some v
    → IsFloor v (atoms *ℤ pos price.micros_per_token) (10 ^ decimals) × InI64 v
unfolding value
value-IsFloor price atoms decimals v h =
    let p = one-le-pow decimals 10 (omega arith) in
    ground (arith, div_euclid-IsFloor (atoms *ℤ pos price.micros_per_token) (10 ^ decimals) p)

nat_floor : (n d q : ℕ) → 0 < d → q ≡ n / d → (q * d ≤ n) × (n < (q + 1) * d)
nat_floor n d q h e = (grind arith, grind arith)

trade_scale : (a s : ℕ) → 0 < a → 0 < s → 0 < a * s
trade_scale a s h k = grind arith

from_trade_parts :
    (in_atoms in_dec out_atoms out_dec : ℕ) (price : UsdPrice)
    → from_trade in_atoms in_dec out_atoms out_dec ≡ some price
    → (0 < in_atoms)
      × (price.micros_per_token ≡ out_atoms * 1_000_000 * 10 ^ in_dec / (in_atoms * 10 ^ out_dec))
unfolding from_trade
from_trade_parts in_atoms in_dec out_atoms out_dec price h = ground arith

-- The price of a trade is the floor of the exact price; a trade of nothing has none.
pub from_trade-floor :
    (in_atoms in_dec out_atoms out_dec : ℕ) (price : UsdPrice)
    → from_trade in_atoms in_dec out_atoms out_dec ≡ some price
    → (0 < in_atoms)
      × ((price.micros_per_token * (in_atoms * 10 ^ out_dec) ≤ out_atoms * 1_000_000 * 10 ^ in_dec)
          × (out_atoms * 1_000_000 * 10 ^ in_dec
              < (price.micros_per_token + 1) * (in_atoms * 10 ^ out_dec)))
from_trade-floor in_atoms in_dec out_atoms out_dec price h =
    let (some_in, e) = from_trade_parts in_atoms in_dec out_atoms out_dec price h in
    let d = trade_scale in_atoms (10 ^ out_dec) some_in (one-le-pow out_dec 10 (omega arith)) in
    (
      some_in,
      nat_floor (out_atoms * 1_000_000 * 10 ^ in_dec) (in_atoms * 10 ^ out_dec)
          price.micros_per_token d e,
    )
