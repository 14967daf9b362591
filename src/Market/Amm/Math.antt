-- ===== src/Market/Amm/Math.antt =====
-- crates/market/src/amm/math.rs: 256-bit products and quotients, and the square-root price of a
-- tick. A u128 is a native number below 2 ^ 128; `>>` is a division, `<<` a product that loses the
-- bits above the width, `&` and `|` are the native bit operations. The sums in `mul` cannot leave
-- 128 bits, so only the shifts are cut.
pub mod Wide
pub mod Division
pub mod Search
pub mod Prices
mod Tests
use Prim.Native.Nat.{bit_and, bit_or}
use mobius_searcher.Base.{
  ℕ, zero, suc, ◌+◌, ◌-◌, ◌*◌, ◌/◌, ◌%◌, ◌^◌, Bool, true, false, ◌&&◌, ◌||◌, Option, none, some,
  List, [], ◌∷◌, ltb, leb, ◌==◌, ◌!=◌, if◌then◌else◌, ◌>>=◌, ◌>>◌, guard,
}
use mobius_searcher.Base.Int.{ℤ, pos, negsuc, pos_part, neg_part, ◌+ℤ◌, ◌-ℤ◌, ltb_ℤ, leb_ℤ, quot}
use mobius_searcher.Base.Words.{u128_max, fits}

-- `struct U256`
pub record U256 : Type 0 where
  pub hi : ℕ
  pub lo : ℕ

abbrev pub shr : ℕ → ℕ → ℕ
shr x k = x / 2 ^ k

abbrev pub shl : ℕ → ℕ → ℕ
shl x k = (x * 2 ^ k) % 2 ^ 128

-- `const LOW`
abbrev pub low : ℕ
low = 2 ^ 64 - 1

-- `U256::from`
abbrev pub from_u128 : ℕ → U256
from_u128 lo = record { hi = 0; lo = lo }

-- `U256::mul`
unfoldable pub mul : ℕ → ℕ → U256
mul a b =
    let a1 = shr a 64 in
    let a0 = bit_and a low in
    let b1 = shr b 64 in
    let b0 = bit_and b low in
    let p00 = a0 * b0 in
    let p01 = a0 * b1 in
    let p10 = a1 * b0 in
    let p11 = a1 * b1 in
    let mid = shr p00 64 + bit_and p01 low + bit_and p10 low in
    record {
      hi = p11 + shr p01 64 + shr p10 64 + shr mid 64;
      lo = bit_or (bit_and p00 low) (shl mid 64);
    }

-- `U256::checked_shl`
unfoldable pub checked_shl : U256 → ℕ → Option U256
checked_shl u n =
    if n == 0
    then some u
    else if leb 128 n || shr u.hi (128 - n) != 0
    then none
    else some (record { hi = bit_or (shl u.hi n) (shr u.lo (128 - n)); lo = shl u.lo n })

-- `U256::checked_add`: `overflowing_add` on the low halves, then the carry into the high ones.
unfoldable pub checked_add : U256 → U256 → Option U256
checked_add u v = do
  let carry = if ltb u128_max (u.lo + v.lo) then 1 else 0
  hi ← fits u128_max (u.hi + v.hi)
  hi' ← fits u128_max (hi + carry)
  some (record { hi = hi'; lo = (u.lo + v.lo) % 2 ^ 128 })

-- Bit `i` of the dividend, and setting bit `i` of the quotient.
unfoldable pub bit_of : U256 → ℕ → ℕ
bit_of u i = bit_and (if leb 128 i then shr u.hi (i - 128) else shr u.lo i) 1

unfoldable pub set_bit : U256 → ℕ → U256
set_bit q i =
    if leb 128 i
    then record q { hi = bit_or q.hi (shl 1 (i - 128)) }
    else record q { lo = bit_or q.lo (shl 1 i) }

-- The body of the loop in `U256::div_rem` at bit `i`.
unfoldable pub div_step : U256 → ℕ → ℕ → U256 × ℕ → U256 × ℕ
div_step u d i (q, rem) =
    let carry = shr rem 127 in
    let rem' = bit_or (shl rem 1) (bit_of u i) in
    if carry == 1 || leb d rem' then (set_bit q i, (rem' + 2 ^ 128 - d) % 2 ^ 128) else (q, rem')

-- `for i in (0..n).rev()`
unfoldable pub div_loop : U256 → ℕ → ℕ → U256 × ℕ → U256 × ℕ
div_loop u d zero s = s
div_loop u d (suc i) s = div_loop u d i (div_step u d i s)

-- `U256::div_rem`
unfoldable pub div_rem : U256 → ℕ → Option (U256 × ℕ)
div_rem u d = if d == 0 then none else some (div_loop u d 256 (record { hi = 0; lo = 0 }, 0))

-- `U256::low`
unfoldable pub low_u128 : U256 → Option ℕ
low_u128 u = if u.hi == 0 then some u.lo else none

unfoldable pub mul_div : ℕ → ℕ → ℕ → Option ℕ
mul_div a b d = do (q, rem) ← div_rem (mul a b) d; low_u128 q

unfoldable pub mul_div_up : ℕ → ℕ → ℕ → Option ℕ
mul_div_up a b d = do
  (q, rem) ← div_rem (mul a b) d
  n ← low_u128 q
  fits u128_max (n + (if rem != 0 then 1 else 0))

abbrev pub max_tick : ℤ
max_tick = pos 443_636

abbrev pub min_tick : ℤ
min_tick = negsuc 443_635

-- `const HALF_TICK_POWERS`
abbrev pub half_tick_powers : List ℕ
half_tick_powers =
    0xfffcb933bd6fad37aa2d162d1a594001 ∷ 0xfff97272373d413259a46990580e2139
    ∷ 0xfff2e50f5f656932ef12357cf3c7fdcb ∷ 0xffe5caca7e10e4e61c3624eaa0941ccf
    ∷ 0xffcb9843d60f6159c9db58835c926643 ∷ 0xff973b41fa98c081472e6896dfb254bf
    ∷ 0xff2ea16466c96a3843ec78b326b52860 ∷ 0xfe5dee046a99a2a811c461f1969c3052
    ∷ 0xfcbe86c7900a88aedcffc83b479aa3a3 ∷ 0xf987a7253ac413176f2b074cf7815e53
    ∷ 0xf3392b0822b70005940c7a398e4b70f2 ∷ 0xe7159475a2c29b7443b29c7fa6e889d8
    ∷ 0xd097f3bdfd2022b8845ad8f792aa5825 ∷ 0xa9f746462d870fdf8a65dc1f90e061e4
    ∷ 0x70d869a156d2a1b890bb3df62baf32f6 ∷ 0x31be135f97d08fd981231505542fcfa5
    ∷ 0x09aa508b5b7a84e1c677de54f3e99bc8 ∷ 0x005d6af8dedb81196699c329225ee604
    ∷ 0x00002216e584f5fa1ea926041bedfe97 ∷ []

-- The loop over the table: bit `i` of the tick multiplies by the power for `i`.
unfoldable pub tick_product : ℕ → ℕ → List ℕ → ℕ → ℕ
tick_product tick i [] r = r
tick_product tick i (power ∷ powers) r =
    tick_product tick (i + 1) powers (if bit_and (shr tick i) 1 == 1 then (mul r power).hi else r)

unfoldable pub sqrt_price_at_tick : ℤ → Option ℕ
sqrt_price_at_tick tick = do
  guard (leb_ℤ min_tick tick && leb_ℤ tick max_tick)
  let r = tick_product (pos_part tick + neg_part tick) 0 half_tick_powers u128_max
  if ltb_ℤ (pos 0) tick
      then (do (q, rem) ← div_rem (record { hi = shl 1 64; lo = 0 }) r; low_u128 q)
      else some (shr r 64)

-- The loop of `tick_at_sqrt_price`, over the price of a tick; the outer `none` says that the fuel
-- ran out, the inner one is the early return of `?`.
pub tick_search : (ℤ → Option ℕ) → ℕ → ℕ → ℤ → ℤ → Option (Option ℤ)
tick_search price sqrt_price zero lo hi = if ltb_ℤ lo hi then none else some (some lo)
tick_search price sqrt_price (suc fuel) lo hi =
    let mid = lo +ℤ quot (hi -ℤ lo +ℤ pos 1) (pos 2) in
    let up = tick_search price sqrt_price fuel mid hi in
    let down = tick_search price sqrt_price fuel lo (mid -ℤ pos 1) in
    if ltb_ℤ lo hi
    then elim (price mid) [ none ↦ some none | some p ↦ if leb p sqrt_price then up else down ]
    else some (some lo)

-- Halvings enough for the 887,273 ticks of the range.
abbrev pub search_rounds : ℕ
search_rounds = 20

unfoldable pub tick_at_sqrt_price : ℕ → Option (Option ℤ)
tick_at_sqrt_price sqrt_price = elim (sqrt_price_at_tick min_tick) [
  | none ↦ some none
  | some least ↦
      if ltb sqrt_price least
      then some none
      else tick_search sqrt_price_at_tick sqrt_price search_rounds min_tick max_tick
]
