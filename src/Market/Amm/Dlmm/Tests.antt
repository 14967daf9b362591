-- ===== src/Market/Amm/Dlmm/Tests.antt =====
-- A swap over two bins of a pool without a fee that moves.
use mobius_searcher.Base.{◌^◌, ◌≡◌, refl, true, Option, some, [], ◌∷◌}
use mobius_searcher.Base.Int.{pos, negsuc, ◌+ℤ◌, ◌-ℤ◌}
use mobius_searcher.Base.Words.{wrap_i64}
use mobius_searcher.Market.Amm.Math.{
  mul, checked_shl, div_rem, div_loop, div_step, bit_of, set_bit, low_u128, mul_div_up,
}
use mobius_searcher.Market.Amm.Dlmm.{
  Dlmm, Swap, fee_rate, references, bin_at, empties, got, trade, pass, swap_loop, swap,
}
use mobius_searcher.Market.Amm.Dlmm.Ends.{bin_swap_ends}

abbrev pool : Dlmm
pool = record {
  active_id = pos 0;
  bin_step = 10;
  base_factor = 10_000;
  base_fee_power = 0;
  variable_fee_control = 0;
  max_volatility_accumulator = 350_000;
  protocol_share = 500;
  filter_period = 30;
  decay_period = 600;
  reduction_factor = 5_000;
  volatility_accumulator = 0;
  volatility_reference = 0;
  index_reference = pos 0;
  last_update = pos 1_000;
  bins =
      (pos 0, record { amount_x = 0; amount_y = 1_000_000; price = 2 ^ 64 })
      ∷ (negsuc 0, record { amount_x = 0; amount_y = 1_000_000; price = 2 ^ 64 })
      ∷ [];
}

two_bins :
    swap pool true 1_500_000 (pos 2_000)
    ≡ some (some (record { amount_out = 1_498_499; fee = 1_501; active_id = negsuc 0 }))
unfolding swap swap_loop pass trade got empties bin_at references fee_rate mul_div_up mul div_rem
    div_loop div_step bit_of set_bit low_u128 checked_shl ◌+ℤ◌ ◌-ℤ◌ wrap_i64
two_bins = refl

bin_swap_ends_example : (r : Option Swap) × (swap pool true 1_500_000 (pos 2_000) ≡ some r)
bin_swap_ends_example = bin_swap_ends pool true 1_500_000 (pos 2_000)
