-- ===== src/Market/Amm/Clmm/Tests.antt =====
-- Swaps against the pool of the source's own tests: price 1 with one position from -100 to 100.
use mobius_searcher.Base.{◌+◌, ◌*◌, ◌^◌, ◌≡◌, refl, true, Option, some, [], ◌∷◌}
use mobius_searcher.Base.Int.{pos, negsuc, ◌+ℤ◌, ◌-ℤ◌}
use mobius_searcher.Base.Words.{u128_max, fits, div_ceil}
use mobius_searcher.Market.Amm.Math.{
  mul, checked_shl, checked_add, div_rem, div_loop, div_step, bit_of, set_bit, low_u128, mul_div,
  mul_div_up, sqrt_price_at_tick, tick_product,
}
use mobius_searcher.Market.Amm.Clmm.{
  Clmm, Swap, amount_a, amount_b, price_after, price_up, price_down, step, cross, round, swap_loop,
  swap, last_at_most, first_above,
}
use mobius_searcher.Market.Amm.Clmm.Amounts.{distance, amount_b-rounded}
use mobius_searcher.Market.Amm.Clmm.Ends.{swap_ends}

abbrev pool : Clmm
pool = record {
  sqrt_price = 2 ^ 64;
  tick = pos 0;
  liquidity = 1_000_000_000_000;
  fee_ppm = 3_000;
  ticks =
      record { index = negsuc 199; liquidity_net = pos 2_000_000_000_000 }
      ∷ record { index = negsuc 99; liquidity_net = negsuc 999_999_999_999 }
      ∷ record { index = pos 100; liquidity_net = negsuc 999_999_999_999 }
      ∷ [];
  known = (negsuc 299, pos 300);
}

amount_b-rounded_example :
    amount_b (2 ^ 64) (2 ^ 64 + 5) 1_000_000 true
    ≡ fits u128_max (div_ceil (1_000_000 * distance (2 ^ 64) (2 ^ 64 + 5)) (2 ^ 64))
amount_b-rounded_example = amount_b-rounded (2 ^ 64) (2 ^ 64 + 5) 1_000_000 true

swap_ends_example : (r : Option Swap) × (swap pool true 1_000_000_000 ≡ some r)
swap_ends_example = swap_ends pool true 1_000_000_000

crossing :
    swap pool true 6_000_000_000
    ≡ some (
        some (record {
          amount_out = 5_946_890_981;
          fee = 18_000_001;
          sqrt_price = 18_345_894_219_962_306_702;
          ticks_crossed = 1;
        }))
unfolding swap swap_loop round cross step amount_a amount_b price_after price_up price_down
    last_at_most first_above sqrt_price_at_tick tick_product mul_div mul_div_up mul div_rem div_loop
    div_step bit_of set_bit low_u128 checked_shl checked_add ◌+ℤ◌ ◌-ℤ◌
crossing = refl
