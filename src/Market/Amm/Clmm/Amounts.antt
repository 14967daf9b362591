-- ===== src/Market/Amm/Clmm/Amounts.antt =====
-- The amounts between two prices against the formulas of the pool.
use mobius_searcher.Base.{
  ℕ, ◌+◌, ◌-◌, ◌*◌, ◌/◌, ◌%◌, ◌^◌, ◌≤◌, ◌<◌, ◌≡◌, ap, ◌∙◌, Bool, ◌&&◌, Option, none, leb, ◌!=◌,
  if◌then◌else◌, arith, Bool-cases, inl, inr,
}
use Prim.Native.Nat.{bit_or}
use mobius_searcher.Base.Bits.{bit_or_high}
use mobius_searcher.Base.Words.{u128_max, fits, div_ceil}
use mobius_searcher.Market.Amm.Math.{mul, shl, shr}
use mobius_searcher.Market.Amm.Math.Wide.{mul-halves}
use mobius_searcher.Market.Amm.Clmm.{amount_b}

-- How far two prices are apart.
abbrev pub distance : ℕ → ℕ → ℕ
distance x y = (x - y) + (y - x)

-- Joining the middle 128 bits of a product.
middle :
    (n : ℕ)
    → n / 2 ^ 128 / 2 ^ 64 ≡ 0
    → bit_or (shl (n / 2 ^ 128) 64) (shr (n % 2 ^ 128) 64) ≡ n / 2 ^ 64
middle n h =
    let small : n / 2 ^ 128 < 2 ^ 64 = omega arith in
    let e : shl (n / 2 ^ 128) 64 ≡ n / 2 ^ 128 * 2 ^ 64 = omega arith in
    rw (e, bit_or_high 64 (n / 2 ^ 128) (shr (n % 2 ^ 128) 64) (omega arith)) (omega arith)

abbrev join : ℕ → ℕ → Bool → Option ℕ
join hi lo up =
    if shr hi 64 != 0
    then none
    else fits u128_max (bit_or (shl hi 64) (shr lo 64) + (if up && lo % 2 ^ 64 != 0 then 1 else 0))

ceil_64 : (n : ℕ) → div_ceil n (2 ^ 64) ≡ n / 2 ^ 64 + (if n % 2 ^ 128 % 2 ^ 64 != 0 then 1 else 0)
ceil_64 n = ground arith

join-halves :
    (n : ℕ) (up : Bool)
    → join (n / 2 ^ 128) (n % 2 ^ 128) up
      ≡ fits u128_max (if up then div_ceil n (2 ^ 64) else n / 2 ^ 64)
join-halves n up = elim (Bool-cases (n / 2 ^ 128 / 2 ^ 64 != 0)) [
  | inl wide ↦
      let large : 2 ^ 128 ≤ n / 2 ^ 64 = ground arith in
      let above : n / 2 ^ 64 ≤ div_ceil n (2 ^ 64) = omega arith in rw wide (ground arith)
  | inr narrow ↦ let m = middle n (ground arith) in rw (narrow, m) (ground (arith, ceil_64 n))
]

abbrev product_of : ℕ → Bool → Option ℕ
product_of n up = fits u128_max (if up then div_ceil n (2 ^ 64) else n / 2 ^ 64)

join-mul :
    (l d k : ℕ) (up : Bool) → d ≡ k → join (mul l d).hi (mul l d).lo up ≡ product_of (l * k) up
join-mul l d k up e =
    rw (mul-halves l d) (join-halves (l * d) up ∙ ap (λ (n : ℕ). product_of (l * n) up) e)

-- Token B between two prices is the liquidity times their distance, in units of 2 ^ 64, rounded as
-- asked, and refused exactly when that is no u128.
pub amount_b-rounded :
    (x y l : ℕ) (up : Bool)
    → amount_b x y l up
      ≡ fits u128_max
          (if up then div_ceil (l * distance x y) (2 ^ 64) else l * distance x y / 2 ^ 64)
unfolding amount_b
amount_b-rounded x y l up = elim (Bool-cases (leb x y)) [
  | inl le ↦ rw le (join-mul l (y - x) (distance x y) up (ground arith))
  | inr gt ↦ rw gt (join-mul l (x - y) (distance x y) up (ground arith))
]
