-- ===== src/Market/Amm/Clmm.antt =====
-- crates/market/src/amm/clmm.rs: the swap that a concentrated-liquidity pool executes. Decoding the
-- accounts is not modelled. Sums and differences of u128 that the source leaves unchecked wrap. The
-- loop of `swap` runs on fuel, and running out of it is told apart from an unknown answer.
pub mod Amounts
pub mod Ends
mod Tests
use Prim.Native.Nat.{bit_or}
use mobius_searcher.Base.{
  ℕ, zero, suc, ◌+◌, ◌-◌, ◌*◌, ◌/◌, ◌%◌, ◌^◌, Bool, true, false, ◌&&◌, ◌||◌, Option, none, some,
  List, [], ◌∷◌, length, ltb, leb, ◌==◌, ◌!=◌, if◌then◌else◌, ◌>>=◌, ◌>>◌, guard,
}
use mobius_searcher.Base.Int.{ℤ, pos, pos_part, ◌+ℤ◌, ◌-ℤ◌, leb_ℤ, ltb_ℤ, neg_ℤ}
use mobius_searcher.Base.Words.{u64_max, u128_max, fits, fits_i128}
use mobius_searcher.Market.Amm.Math.{
  mul, shr, shl, from_u128, checked_shl, checked_add, div_rem, low_u128, mul_div, mul_div_up,
  sqrt_price_at_tick,
}

-- `const PPM`
abbrev pub ppm : ℕ
ppm = 1_000_000

abbrev pub wrapping_add : ℕ → ℕ → ℕ
wrapping_add a b = (a + b) % 2 ^ 128

abbrev pub wrapping_sub : ℕ → ℕ → ℕ
wrapping_sub a b = (a + 2 ^ 128 - b) % 2 ^ 128

pub record Tick : Type 0 where
  pub index : ℤ
  pub liquidity_net : ℤ

pub record Clmm : Type 0 where
  pub sqrt_price : ℕ
  pub tick : ℤ
  pub liquidity : ℕ
  pub fee_ppm : ℕ
  pub ticks : List Tick
  pub known : ℤ × ℤ

pub record Swap : Type 0 where
  pub amount_out : ℕ
  pub fee : ℕ
  pub sqrt_price : ℕ
  pub ticks_crossed : ℕ

-- The two prices, the lower one first.
abbrev pub ordered : ℕ → ℕ → ℕ × ℕ
ordered lo hi = if leb lo hi then (lo, hi) else (hi, lo)

unfoldable pub amount_a : ℕ → ℕ → ℕ → Bool → Option ℕ
amount_a lo' hi' l up = do
  let (lo, hi) = ordered lo' hi'
  x ← checked_shl (mul l (hi - lo)) 64
  (q, r1) ← div_rem x hi
  (q', r2) ← div_rem q lo
  v ← low_u128 q'
  fits u128_max (v + (if up && (r1 != 0 || r2 != 0) then 1 else 0))

unfoldable pub amount_b : ℕ → ℕ → ℕ → Bool → Option ℕ
amount_b lo' hi' l up =
    let (lo, hi) = ordered lo' hi' in
    let p = mul l (hi - lo) in
    if shr p.hi 64 != 0
    then none
    else fits u128_max
        (bit_or (shl p.hi 64) (shr p.lo 64) + (if up && p.lo % 2 ^ 64 != 0 then 1 else 0))

-- The two branches of `price_after`: selling A, l·√P / (l + amount·√P) rounded up; selling B,
-- √P + amount / l rounded down.
unfoldable pub price_down : ℕ → ℕ → ℕ → Option ℕ
price_down sqrt_price l amount = do
  shifted ← checked_shl (from_u128 l) 64
  l_x64 ← low_u128 shifted
  sum ← checked_add (from_u128 l_x64) (mul amount sqrt_price)
  denominator ← low_u128 sum
  mul_div_up l_x64 sqrt_price denominator

unfoldable pub price_up : ℕ → ℕ → ℕ → Option ℕ
price_up sqrt_price l amount = do
  shifted ← checked_shl (from_u128 amount) 64
  (q, rem) ← div_rem shifted l
  n ← low_u128 q
  fits u128_max (sqrt_price + n)

unfoldable pub price_after : ℕ → ℕ → ℕ → Bool → Option ℕ
price_after sqrt_price l amount a_to_b =
    if amount == 0
    then some sqrt_price
    else if a_to_b
    then price_down sqrt_price l amount
    else price_up sqrt_price l amount

pub record Step : Type 0 where
  pub sqrt_price : ℕ
  pub amount_in : ℕ
  pub amount_out : ℕ
  pub fee : ℕ

-- `step`: the closure `input` is `input_to`.
abbrev pub input_to : ℕ → ℕ → Bool → ℕ → Option ℕ
input_to sqrt_price l a_to_b to =
    if a_to_b then amount_a to sqrt_price l true else amount_b sqrt_price to l true

unfoldable pub step : ℕ → ℕ → ℕ → ℕ → ℕ → Bool → Option Step
step sqrt_price target l remaining fee_ppm a_to_b = do
  to_target ← input_to sqrt_price l a_to_b target
  after_fee ← mul_div remaining (wrapping_sub ppm fee_ppm) ppm
  next ← if leb to_target after_fee then some target else price_after sqrt_price l after_fee a_to_b
  amount_in ← if next == target then some to_target else input_to sqrt_price l a_to_b next
  amount_out ← if a_to_b then amount_b next sqrt_price l false else amount_a sqrt_price next l false
  fee ←
      if next == target
      then mul_div_up amount_in fee_ppm (wrapping_sub ppm fee_ppm)
      else if leb amount_in remaining
      then some (remaining - amount_in)
      else none
  some (record { sqrt_price = next; amount_in = amount_in; amount_out = amount_out; fee = fee })

-- `find` from the back, and from the front.
pub last_at_most : ℤ → List Tick → Option Tick
last_at_most tick [] = none
last_at_most tick (t ∷ ts) = elim (last_at_most tick ts) [
  | some u ↦ some u
  | none ↦ if leb_ℤ t.index tick then some t else none
]

pub first_above : ℤ → List Tick → Option Tick
first_above tick [] = none
first_above tick (t ∷ ts) =
    let rest = first_above tick ts in if ltb_ℤ tick t.index then some t else rest

-- The variables of `swap`.
pub record State : Type 0 where
  pub sqrt_price : ℕ
  pub tick : ℤ
  pub liquidity : ℕ
  pub remaining : ℕ
  pub out : ℕ
  pub fees : ℕ
  pub crossed : ℕ

-- How the body of the loop ends, when it does not return: at `break`, or at its end.
pub data Round : Type 0 where
  stops continues : State → Round

-- `liquidity.checked_add_signed(net)`
abbrev pub checked_add_signed : ℕ → ℤ → Option ℕ
checked_add_signed l net =
    if leb_ℤ (pos 0) (pos l +ℤ net) then fits u128_max (pos_part (pos l +ℤ net)) else none

abbrev pub tick_after : Bool → ℤ → ℤ
tick_after a_to_b target_tick = if a_to_b then target_tick -ℤ pos 1 else target_tick

-- The end of the body: where the price reached the target, the tick is crossed.
unfoldable pub cross : Bool → Option Tick → ℤ → State → Option Round
cross a_to_b (some t) target_tick s = do
  net ← if a_to_b then fits_i128 (neg_ℤ t.liquidity_net) else some t.liquidity_net
  liquidity ← checked_add_signed s.liquidity net
  some (
      continues (record s {
        liquidity = liquidity;
        crossed = (s.crossed + 1) % 2 ^ 32;
        tick = tick_after a_to_b target_tick;
      }))
cross a_to_b none target_tick s =
    if ltb 0 s.remaining
    then none
    else some (continues (record s { tick = tick_after a_to_b target_tick }))

abbrev pub next_tick : Clmm → Bool → ℤ → Option Tick
next_tick p a_to_b tick = if a_to_b then last_at_most tick p.ticks else first_above tick p.ticks

abbrev pub target_of : Clmm → Bool → Option Tick → ℤ
target_of p a_to_b (some t) = t.index
target_of p a_to_b none = if a_to_b then p.known.0 else p.known.1

-- One pass of the loop of `swap`, `none` where the source returns `None`.
unfoldable pub round : Clmm → Bool → State → Option Round
round p a_to_b s = do
  let next = next_tick p a_to_b s.tick
  target ← sqrt_price_at_tick (target_of p a_to_b next)
  st ← step s.sqrt_price target s.liquidity s.remaining p.fee_ppm a_to_b
  guard (leb (wrapping_add st.amount_in st.fee) s.remaining)
  let s' = record s {
    remaining = s.remaining - wrapping_add st.amount_in st.fee;
    out = wrapping_add s.out st.amount_out;
    fees = wrapping_add s.fees st.fee;
    sqrt_price = st.sqrt_price;
  }
  if st.sqrt_price != target
      then some (stops s')
      else cross a_to_b next (target_of p a_to_b next) s'

-- `while remaining > 0`; the outer `none` says that the fuel ran out.
pub swap_loop : Clmm → Bool → ℕ → State → Option (Option State)
swap_loop p a_to_b zero s = if s.remaining == 0 then some (some s) else none
swap_loop p a_to_b (suc fuel) s =
    if s.remaining == 0 then some (some s) else elim (round p a_to_b s) [
      | none ↦ some none
      | some (stops s') ↦ some (some s')
      | some (continues s') ↦ swap_loop p a_to_b fuel s'
    ]

abbrev pub start : Clmm → ℕ → State
start p amount_in = record {
  sqrt_price = p.sqrt_price;
  tick = p.tick;
  liquidity = p.liquidity;
  remaining = amount_in;
  out = 0;
  fees = 0;
  crossed = 0;
}

abbrev pub finish : Option State → Option Swap
finish none = none
finish (some s) = do
  out ← fits u64_max s.out
  fee ← fits u64_max s.fees
  some
      (record { amount_out = out; fee = fee; sqrt_price = s.sqrt_price; ticks_crossed = s.crossed })

-- `Clmm::swap`, with a pass for each tick and one more at the edge.
unfoldable pub swap : Clmm → Bool → ℕ → Option (Option Swap)
swap p a_to_b amount_in = elim (swap_loop p a_to_b (length p.ticks + 1) (start p amount_in)) [
  | none ↦ none
  | some r ↦ some (finish r)
]
