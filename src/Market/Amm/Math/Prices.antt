-- ===== src/Market/Amm/Math/Prices.antt =====
-- The square-root price of a tick and the tick of a price, amm/math.rs.
use mobius_searcher.Base.{
  ℕ, ◌+◌, ◌*◌, ◌/◌, ◌%◌, ◌^◌, ◌<◌, ◌≤◌, ◌≡◌, refl, none, some, arith, ltb, ◌==◌, inl, inr,
  Bool-cases, ◌⊎◌, ◌&&◌, ltb→lt, List, [], ◌∷◌, All,
}
use Prim.Native.Nat.{bit_and}
use mobius_searcher.Base.Int.{ℤ, pos, pos_part, neg_part, ◌≤ℤ◌, ltb_ℤ, leb_ℤ}
use mobius_searcher.Base.Words.{u128_max}
use mobius_searcher.Market.Amm.Math.{
  mul, shl, shr, div_rem, half_tick_powers, tick_product, min_tick, max_tick, sqrt_price_at_tick,
  tick_search, tick_at_sqrt_price, search_rounds,
}
use mobius_searcher.Market.Amm.Math.Wide.{halves, mul-halves}
use mobius_searcher.Market.Amm.Math.Division.{div_rem-exact, low_u128-halves}
use mobius_searcher.Market.Amm.Math.Search.{Answer, Total, search_crosses}

-- The product with every power taken, a lower bound for the product with some.
lower : List ℕ → ℕ → ℕ
lower [] l = l
lower (p ∷ ps) l = lower ps (l * p / 2 ^ 128)

abbrev Below1 : List ℕ → Type 0
Below1 = All (λ p. p < 2 ^ 128)

scaled :
    (l r p : ℕ) → l ≤ r → p < 2 ^ 128 → (l * p / 2 ^ 128 ≤ l) × (l * p / 2 ^ 128 ≤ r * p / 2 ^ 128)
scaled l r p h lt = (grind arith, grind arith)

scaled_down : (r p : ℕ) → p < 2 ^ 128 → r * p / 2 ^ 128 ≤ r
scaled_down r p lt = grind arith

times : (r p : ℕ) → (mul r p).hi ≡ r * p / 2 ^ 128
times r p = rw mul-halves

tick_product_bounds :
    (tick i : ℕ) (ps : List ℕ) (r l : ℕ)
    → Below1 ps
    → l ≤ r
    → (lower ps l ≤ tick_product tick i ps r) × (tick_product tick i ps r ≤ r)
unfolding lower tick_product
tick_product_bounds tick i [] r l h le = (le, omega arith)
tick_product_bounds tick i (p ∷ ps) r l h le = elim (Bool-cases (bit_and (shr tick i) 1 == 1)) [
  | inl set ↦
      let ih =
        tick_product_bounds tick (i + 1) ps (r * p / 2 ^ 128) (l * p / 2 ^ 128) h.1
          (scaled l r p le h.0).1 in
      rw (set, times r p) (ih.0, omega (arith, ih.1, scaled_down r p h.0))
  | inr clear ↦
      let ih =
        tick_product_bounds tick (i + 1) ps r (l * p / 2 ^ 128) h.1
          (omega (arith, (scaled l r p le h.0).0)) in
      rw clear ih
]

powers_Below1 : Below1 half_tick_powers
powers_Below1 = omega arith

lowest : 2 ^ 64 < lower half_tick_powers u128_max
unfolding lower
lowest = omega arith

product_bounds :
    (tick : ℕ)
    → (2 ^ 64 < tick_product tick 0 half_tick_powers u128_max)
      × (tick_product tick 0 half_tick_powers u128_max < 2 ^ 128)
product_bounds tick =
    let b =
      tick_product_bounds tick 0 half_tick_powers u128_max u128_max powers_Below1 (omega arith) in
    (omega (arith, lowest, b.0), omega (arith, b.1))

inverse_fits : (r : ℕ) → 2 ^ 64 < r → 2 ^ 192 / r < 2 ^ 128
inverse_fits r h = grind arith

inverse :
    (r : ℕ)
    → 2 ^ 64 < r
    → r < 2 ^ 128
    → div_rem (record { hi = shl 1 64; lo = 0 }) r ≡ some (halves (2 ^ 192 / r), 2 ^ 192 % r)
inverse r h hr = div_rem-exact (record { hi = 2 ^ 64; lo = 0 }) r (omega arith) (omega arith) hr

abbrev pub InRange : ℤ → Type 0
InRange tick = (min_tick ≤ℤ tick) × (tick ≤ℤ max_tick)

-- Every tick of the range has a price, and it is a u128.
pub sqrt_price_at_tick-total :
    (tick : ℤ) → InRange tick → (p : ℕ) × (sqrt_price_at_tick tick ≡ some p) × (p < 2 ^ 128)
unfolding sqrt_price_at_tick
sqrt_price_at_tick-total tick h =
    let r = tick_product (pos_part tick + neg_part tick) 0 half_tick_powers u128_max in
    let b = product_bounds (pos_part tick + neg_part tick) in
    let i = inverse r b.0 b.1 in
    elim (Bool-cases (ltb_ℤ (pos 0) tick)) [
      | inl up ↦ (
        2 ^ 192 / r,
        ground (arith, i, low_u128-halves (2 ^ 192 / r), inverse_fits r b.0),
        inverse_fits r b.0,
      )
      | inr down ↦ (shr r 64, ground arith, omega arith)
    ]

-- No other tick has a price.
pub sqrt_price_at_tick-outside : (tick : ℤ) → ¬ InRange tick → sqrt_price_at_tick tick ≡ none
unfolding sqrt_price_at_tick
sqrt_price_at_tick-outside tick h = elim (Bool-cases (leb_ℤ min_tick tick && leb_ℤ tick max_tick)) [
  | inl within ↦ absurd (h (ground arith, ground arith))
  | inr outside ↦ rw (outside, sqrt_price_at_tick)
]

every_price : (s : ℕ) → Total sqrt_price_at_tick s min_tick max_tick
every_price s t l u = let (p, e, _) = sqrt_price_at_tick-total t (l, u) in (p, e)

crossing :
    (s least : ℕ)
    → sqrt_price_at_tick min_tick ≡ some least
    → least ≤ s
    → Answer sqrt_price_at_tick s max_tick min_tick max_tick
        (tick_search sqrt_price_at_tick s search_rounds min_tick max_tick)
crossing s least e le =
    search_crosses sqrt_price_at_tick s max_tick search_rounds min_tick max_tick 887_272
      (every_price s) (omega arith) (omega arith) (least, e, le) (inl refl)

-- The search ends. It answers nothing for a price below that of the first tick; else the price of
-- its answer is at most the given one, and the next tick, if there is one, has a price above it.
pub tick_at_sqrt_price-crosses :
    (s least : ℕ)
    → sqrt_price_at_tick min_tick ≡ some least
    → ((s < least) × (tick_at_sqrt_price s ≡ some none))
      ⊎ ((least ≤ s)
          × Answer sqrt_price_at_tick s max_tick min_tick max_tick (tick_at_sqrt_price s))
unfolding tick_at_sqrt_price
tick_at_sqrt_price-crosses s least e = elim (Bool-cases (ltb s least)) [
  | inl low ↦ inl (ltb→lt s least low, rw (e, tick_at_sqrt_price, low))
  | inr high ↦
      let le : least ≤ s = ground arith in
      inr (le, rw (e, tick_at_sqrt_price, high) (crossing s least e le))
]
