-- ===== src/Market/Amm/Math/Tests.antt =====
-- Runs of amm/math.rs on the inputs of its own tests.
use mobius_searcher.Base.{
  ℕ, ◌^◌, ◌+◌, ◌-◌, ◌*◌, ◌/◌, ◌%◌, ◌≤◌, ◌<◌, ◌⊎◌, ◌≡◌, refl, some, none, arith,
}
use mobius_searcher.Base.Int.{pos, negsuc, ◌+ℤ◌, ◌-ℤ◌, quot}
use mobius_searcher.Base.Words.{u128_max}
use mobius_searcher.Market.Amm.Math.{
  mul, div_rem, mul_div, mul_div_up, checked_shl, checked_add, sqrt_price_at_tick,
  tick_at_sqrt_price, div_loop, div_step, bit_of, set_bit, low_u128, tick_product, tick_search,
  min_tick, max_tick,
}
use mobius_searcher.Market.Amm.Math.Wide.{
  halves, mul-halves, checked_shl-halves, checked_add-halves,
}
use mobius_searcher.Market.Amm.Math.Division.{div_rem-exact, mul_div-floor, mul_div_up-ceil}
use mobius_searcher.Market.Amm.Math.Search.{Answer}
use mobius_searcher.Market.Amm.Math.Prices.{sqrt_price_at_tick-total, tick_at_sqrt_price-crosses}

mul_top : mul u128_max u128_max ≡ record { hi = u128_max - 1; lo = 1 }
unfolding mul
mul_top = refl

div_wide : div_rem (record { hi = 5; lo = 7 }) 2 ≡ some (record { hi = 2; lo = 2 ^ 127 + 3 }, 1)
unfolding div_rem div_loop div_step bit_of set_bit
div_wide = refl

mul_div_up_third : mul_div_up 10 10 3 ≡ some 34
unfolding mul_div_up mul low_u128 div_rem div_loop div_step bit_of set_bit
mul_div_up_third = refl

price_at_low_tick : sqrt_price_at_tick (negsuc 21_210) ≡ some 6_387_806_290_388_874_463
unfolding sqrt_price_at_tick tick_product mul low_u128 div_rem div_loop div_step bit_of set_bit
price_at_low_tick = refl

tick_of_whirlpool : tick_at_sqrt_price 6_387_870_993_612_515_313 ≡ some (some (negsuc 21_210))
unfolding tick_at_sqrt_price tick_search sqrt_price_at_tick tick_product mul low_u128 div_rem
    div_loop div_step bit_of set_bit ◌+ℤ◌ ◌-ℤ◌ quot
tick_of_whirlpool = refl

mul-halves_example : mul u128_max 3 ≡ halves (u128_max * 3)
mul-halves_example = mul-halves u128_max 3

shift_of_wide : checked_shl (record { hi = 0; lo = 3 }) 127 ≡ some (halves (3 * 2 ^ 127))
shift_of_wide =
    checked_shl-halves (record { hi = 0; lo = 3 }) 127 (omega arith, omega arith) (omega arith)

sum_of_wide :
    checked_add (record { hi = 1; lo = u128_max }) (record { hi = 0; lo = 1 })
    ≡ some (halves (2 * 2 ^ 128))
sum_of_wide =
    checked_add-halves (record { hi = 1; lo = u128_max }) (record { hi = 0; lo = 1 })
      (omega arith, omega arith) (omega arith, omega arith)

div_rem-exact_example :
    div_rem (record { hi = 5; lo = 7 }) 2
    ≡ some (halves ((5 * 2 ^ 128 + 7) / 2), (5 * 2 ^ 128 + 7) % 2)
div_rem-exact_example =
    div_rem-exact (record { hi = 5; lo = 7 }) 2 (omega arith, omega arith) (omega arith)
      (omega arith)

mul_div-floor_example : mul_div u128_max u128_max u128_max ≡ some u128_max
mul_div-floor_example =
    mul_div-floor u128_max u128_max u128_max (omega arith) (omega arith) (omega arith)

mul_div_up-ceil_example : mul_div_up 10 10 3 ≡ some 34
mul_div_up-ceil_example = mul_div_up-ceil 10 10 3 (omega arith) (omega arith) (omega arith)

price_of_tick_500 : (p : ℕ) × (sqrt_price_at_tick (pos 500) ≡ some p) × (p < 2 ^ 128)
price_of_tick_500 = sqrt_price_at_tick-total (pos 500) (omega arith, omega arith)

least_price : sqrt_price_at_tick min_tick ≡ some 4_295_048_016
unfolding sqrt_price_at_tick tick_product mul
least_price = refl

tick_at_sqrt_price-crosses_example :
    ((5_000_000_000 < 4_295_048_016) × (tick_at_sqrt_price 5_000_000_000 ≡ some none))
    ⊎ ((4_295_048_016 ≤ 5_000_000_000)
        × Answer sqrt_price_at_tick 5_000_000_000 max_tick min_tick max_tick
            (tick_at_sqrt_price 5_000_000_000))
tick_at_sqrt_price-crosses_example =
    tick_at_sqrt_price-crosses 5_000_000_000 4_295_048_016 least_price
