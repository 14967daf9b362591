-- ===== src/Market/Amm/Dlmm.antt =====
-- crates/market/src/amm/dlmm.rs: the swap over the bins of a pool, and its fee. The map of bins is an
-- association list. Decoding the accounts is not modelled. Sums and differences of u128 that the
-- source leaves unchecked wrap; a bin's id stays near the bins at hand, so its steps are not cut.
-- The loop of `swap` runs on fuel, and running out of it is told apart from an unknown answer.
pub mod Ends
mod Tests
use Prim.Native.Nat.{bit_or}
use mobius_searcher.Base.{
  ℕ, zero, suc, ◌+◌, ◌-◌, ◌*◌, ◌/◌, ◌%◌, ◌^◌, Bool, true, false, ◌&&◌, Option, none, some, List, [],
  ◌∷◌, length, ltb, leb, ◌==◌, ◌!=◌, if◌then◌else◌, ◌>>=◌, min,
}
use mobius_searcher.Base.Int.{ℤ, pos, pos_part, neg_part, ◌+ℤ◌, ◌-ℤ◌, leb_ℤ, ltb_ℤ}
use mobius_searcher.Base.Words.{u64_max, u128_max, fits, wrap_i64, div_ceil}
use mobius_searcher.Market.Amm.Math.{
  mul, shr, shl, from_u128, checked_shl, div_rem, low_u128, mul_div_up,
}
use mobius_searcher.Market.Amm.Clmm.{wrapping_add, wrapping_sub}

abbrev pub fee_precision : ℕ
fee_precision = 1_000_000_000

abbrev pub max_fee_rate : ℕ
max_fee_rate = 100_000_000

pub record Bin : Type 0 where
  pub amount_x : ℕ
  pub amount_y : ℕ
  pub price : ℕ

pub record Dlmm : Type 0 where
  pub active_id : ℤ
  pub bin_step : ℕ
  pub base_factor : ℕ
  pub base_fee_power : ℕ
  pub variable_fee_control : ℕ
  pub max_volatility_accumulator : ℕ
  pub protocol_share : ℕ
  pub filter_period : ℕ
  pub decay_period : ℕ
  pub reduction_factor : ℕ
  pub volatility_accumulator : ℕ
  pub volatility_reference : ℕ
  pub index_reference : ℤ
  pub last_update : ℤ
  pub bins : List (ℤ × Bin)

pub record Swap : Type 0 where
  pub amount_out : ℕ
  pub fee : ℕ
  pub active_id : ℤ

abbrev pub abs_diff : ℤ → ℤ → ℕ
abs_diff a b = pos_part (a -ℤ b) + neg_part (a -ℤ b)

-- `Dlmm::fee_rate`; the power and its product wrap.
unfoldable pub fee_rate : Dlmm → ℤ → ℤ → ℕ → ℕ
fee_rate p id index_reference volatility_reference =
    let moved = abs_diff index_reference id * 10_000 in
    let accumulator = min (volatility_reference + moved) p.max_volatility_accumulator in
    let base = (p.base_factor * p.bin_step * 10 * 10 ^ p.base_fee_power) % 2 ^ 128 in
    let variable =
      if p.variable_fee_control == 0
      then 0
      else div_ceil ((accumulator * p.bin_step) ^ 2 * p.variable_fee_control) 100_000_000_000 in
    min (wrapping_add base variable) max_fee_rate

-- `Dlmm::references`
unfoldable pub references : Dlmm → ℤ → ℤ × ℕ
references p now =
    let elapsed = wrap_i64 (now -ℤ p.last_update) in
    let kept =
      if ltb_ℤ elapsed (pos p.decay_period)
      then p.volatility_accumulator * p.reduction_factor / 10_000 % 2 ^ 32
      else 0 in
    if ltb_ℤ elapsed (pos p.filter_period)
    then (p.index_reference, p.volatility_reference)
    else (p.active_id, kept)

-- `Dlmm::fee_rate_at`
unfoldable pub fee_rate_at : Dlmm → ℤ → ℤ → ℕ
fee_rate_at p id now = let (index, volatility) = references p now in fee_rate p id index volatility

abbrev pub same_id : ℤ → ℤ → Bool
same_id a b = leb_ℤ a b && leb_ℤ b a

-- `self.bins.get(&id)`
pub bin_at : ℤ → List (ℤ × Bin) → Option Bin
bin_at id [] = none
bin_at id ((k, b) ∷ bins) = let rest = bin_at id bins in if same_id k id then some b else rest

-- The middle 128 bits of a product.
abbrev pub middle : ℕ → ℕ → ℕ
middle a b = let p = mul a b in bit_or (shl p.hi 64) (shr p.lo 64)

-- The input that empties the bin.
unfoldable pub empties : Bool → ℕ → ℕ → Option ℕ
empties true available price = do
  shifted ← checked_shl (from_u128 available) 64
  (q, rem) ← div_rem shifted price
  n ← low_u128 q
  fits u128_max (n + (if rem != 0 then 1 else 0))
empties false available price =
    let p = mul available price in
    fits u128_max (middle available price + (if p.lo % 2 ^ 64 != 0 then 1 else 0))

-- What an input that leaves some of the bin gets.
unfoldable pub got : Bool → ℕ → ℕ → Option ℕ
got true trades price = some (middle trades price)
got false trades price = do
  shifted ← checked_shl (from_u128 trades) 64
  (q, rem) ← div_rem shifted price
  low_u128 q

-- What is left to sell, what came out, and the fees.
pub record Totals : Type 0 where
  pub left : ℕ
  pub out : ℕ
  pub fees : ℕ

-- The block for a bin that has something to give.
unfoldable pub trade : Bool → Bin → ℕ → ℕ → Totals → Option Totals
trade x_to_y bin rate available t = do
  e ← empties x_to_y available bin.price
  on_top ← mul_div_up e rate (fee_precision - rate)
  let with_fee = wrapping_add e on_top
  if leb with_fee t.left
      then some (record {
        left = t.left - with_fee;
        out = wrapping_add t.out available;
        fees = wrapping_sub (wrapping_add t.fees with_fee) e;
      })
      else (do
        fee ← mul_div_up t.left rate fee_precision
        g ← got x_to_y (wrapping_sub t.left fee) bin.price
        some (record {
          left = 0;
          out = wrapping_add t.out (min g available);
          fees = wrapping_add t.fees fee;
        }))

pub record State : Type 0 where
  pub id : ℤ
  pub totals : Totals

abbrev pub available_in : Bool → Bin → ℕ
available_in x_to_y bin = if x_to_y then bin.amount_y else bin.amount_x

abbrev pub moved : Bool → ℤ → ℤ
moved x_to_y id = if x_to_y then id -ℤ pos 1 else id +ℤ pos 1

-- One pass of the loop of `swap`, `none` where the source returns `None`.
unfoldable pub pass : Dlmm → Bool → ℤ × ℕ → State → Option State
pass p x_to_y (index, volatility) s = do
  bin ← bin_at s.id p.bins
  let rate = fee_rate p s.id index volatility
  let available = available_in x_to_y bin
  t ← if ltb 0 available then trade x_to_y bin rate available s.totals else some s.totals
  some (record { id = if ltb 0 t.left then moved x_to_y s.id else s.id; totals = t })

-- `while left > 0`; the outer `none` says that the fuel ran out.
pub swap_loop : Dlmm → Bool → ℤ × ℕ → ℕ → State → Option (Option State)
swap_loop p x_to_y refs zero s = if s.totals.left == 0 then some (some s) else none
swap_loop p x_to_y refs (suc fuel) s =
    if s.totals.left == 0 then some (some s) else elim (pass p x_to_y refs s) [
      | none ↦ some none
      | some s' ↦ swap_loop p x_to_y refs fuel s'
    ]

abbrev pub finish : Option State → Option Swap
finish none = none
finish (some s) = do
  out ← fits u64_max s.totals.out
  fee ← fits u64_max s.totals.fees
  some (record { amount_out = out; fee = fee; active_id = s.id })

abbrev pub start : Dlmm → ℕ → State
start p amount_in = record {
  id = p.active_id;
  totals = record { left = amount_in; out = 0; fees = 0 };
}

-- `Dlmm::swap`, with a pass for each bin and one more.
unfoldable pub swap : Dlmm → Bool → ℕ → ℤ → Option (Option Swap)
swap p x_to_y amount_in now =
    elim (swap_loop p x_to_y (references p now) (length p.bins + 1) (start p amount_in)) [
      | none ↦ none
      | some r ↦ some (finish r)
    ]
