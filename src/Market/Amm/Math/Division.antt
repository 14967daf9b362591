-- ===== src/Market/Amm/Math/Division.antt =====
-- The bit-by-bit division of amm/math.rs, and `mul_div` and `mul_div_up`, against the quotients of
-- numbers.
use Prim.Native.Nat.{bit_and, bit_or}
use native.Mathlib.Nat.{pow-suc, one-le-pow, div-div-eq-div-mul, suc-add, mul-one, div-add-mod}
use mobius_searcher.Base.{
  ℕ, zero, suc, ◌+◌, ◌-◌, ◌*◌, ◌/◌, ◌%◌, ◌^◌, ◌<◌, ◌≤◌, ◌≡◌, refl, sym, ap, subst, ◌∙◌, none, some,
  arith, leb, ◌==◌, ◌!=◌, if◌then◌else◌,
}
use mobius_searcher.Base.Words.{u128_max, fits, div_ceil}
use mobius_searcher.Base.Bits.{bit_and_mask, bit_or_high}
use mobius_searcher.Market.Amm.Math.{
  U256, mul, shl, shr, bit_of, set_bit, div_step, div_loop, div_rem, low_u128, mul_div, mul_div_up,
}
use mobius_searcher.Market.Amm.Math.Wide.{value, halves, IsU256, mul-halves, pow_split}

-- One bit enters the remainder: the digit of the quotient, and the remainder that is left.
abbrev digit : ℕ → ℕ → ℕ → ℕ
digit d rem b = if leb d (2 * rem + b) then 1 else 0

abbrev left : ℕ → ℕ → ℕ → ℕ
left d rem b = if leb d (2 * rem + b) then 2 * rem + b - d else 2 * rem + b

-- The carry out of 128 bits and the wrapping subtraction make the same choice.
remainder_step :
    (d rem b : ℕ)
    → rem < d
    → d < 2 ^ 128
    → b < 2
    → (shl rem 1 + b ≡ (2 * rem + b) % 2 ^ 128) × (shr rem 127 ≡ (2 * rem + b) / 2 ^ 128)
remainder_step d rem b h hd hb = (omega arith, omega arith)

bit_in : (rem b : ℕ) → b < 2 → bit_or (shl rem 1) b ≡ shl rem 1 + b
bit_in rem b h =
    let e : shl rem 1 ≡ rem % 2 ^ 127 * 2 ^ 1 = omega arith in
    rw e (bit_or_high 1 (rem % 2 ^ 127) b (omega arith))

div_step_lem :
    (u q : U256) (d i rem b : ℕ)
    → rem < d
    → d < 2 ^ 128
    → bit_of u i ≡ b
    → b < 2
    → div_step u d i (q, rem) ≡ (if leb d (2 * rem + b) then set_bit q i else q, left d rem b)
unfolding div_step
div_step_lem u q d i rem b h hd e hb =
    rw (e, bit_in rem b hb) (ground (arith, remainder_step d rem b h hd hb))

-- Halving the dividend: its lowest bit is the one that enters next.
next_digit :
    (d rem b m n : ℕ) (q : ℕ)
    → q * d + rem ≡ m
    → rem < d
    → n ≡ 2 * m + b
    → b < 2
    → ((2 * q + digit d rem b) * d + left d rem b ≡ n) × (left d rem b < d)
next_digit d rem b m n q e h en hb = grind arith

pow_lt_word : (j : ℕ) → j < 128 → 2 ^ j < 2 ^ 128
pow_lt_word j h =
    let e : 128 - j ≡ suc (127 - j) = omega arith in
    let s : 2 ^ j * (2 ^ (127 - j) * 2) ≡ 2 ^ 128 =
      ap (λ (t : ℕ). 2 ^ j * t) (sym (pow-suc 2 (127 - j)) ∙ sym (ap (λ (t : ℕ). 2 ^ t) e))
      ∙ pow_split j h in
    let p = one-le-pow (127 - j) 2 (omega arith) in
    let q = one-le-pow j 2 (omega arith) in grind arith

-- One bit of a word that is a multiple of the next power.
one_bit : (j q : ℕ) → j < 128 → bit_or (q * 2 ^ suc j) (shl 1 j) ≡ (2 * q + 1) * 2 ^ j
one_bit j q h =
    let e : shl 1 j ≡ 2 ^ j = omega (arith, pow_lt_word j h) in
    let p = one-le-pow j 2 (omega arith) in
    rw e (
      bit_or_high (suc j) q (2 ^ j) (omega (arith, pow-suc 2 j))
      ∙ omega (arith, ap (λ (t : ℕ). q * t) (pow-suc 2 j)))

half_div : (x j : ℕ) → x / 2 ^ j ≡ 2 * (x / 2 ^ suc j) + x / 2 ^ j % 2
half_div x j =
    let e : x / 2 ^ suc j ≡ x / 2 ^ j / 2 =
      ap (λ (t : ℕ). x / t) (pow-suc 2 j) ∙ sym (div-div-eq-div-mul x (2 ^ j) 2) in
    omega (arith, e)

last_bit : (x : ℕ) → bit_and x 1 ≡ x % 2
last_bit x = bit_and_mask 1 x

bit_high : (u : U256) (j : ℕ) → bit_of u (j + 128) ≡ u.hi / 2 ^ j % 2
unfolding bit_of
bit_high u j =
    let e : j + 128 - 128 ≡ j = omega arith in
    ground (arith, last_bit (u.hi / 2 ^ j), ap (λ (t : ℕ). bit_and (u.hi / 2 ^ t) 1) e)

bit_low : (u : U256) (j : ℕ) → j < 128 → bit_of u j ≡ u.lo / 2 ^ j % 2
unfolding bit_of
bit_low u j h = ground (arith, last_bit (u.lo / 2 ^ j))

digit_high :
    (u : U256) (q j d rem b : ℕ)
    → j < 128
    → (if leb d (2 * rem + b)
        then set_bit (record { hi = q * 2 ^ suc j; lo = 0 }) (j + 128)
        else record { hi = q * 2 ^ suc j; lo = 0 })
      ≡ record { hi = (2 * q + digit d rem b) * 2 ^ j; lo = 0 }
unfolding set_bit
digit_high u q j d rem b h =
    let e : j + 128 - 128 ≡ j = omega arith in
    let o : bit_or (q * 2 ^ suc j) (shl 1 (j + 128 - 128)) ≡ (2 * q + 1) * 2 ^ j =
      ap (λ (t : ℕ). bit_or (q * 2 ^ suc j) (shl 1 t)) e ∙ one_bit j q h in
    ground (arith, o, ap (λ (t : ℕ). q * t) (pow-suc 2 j))

digit_low :
    (hi q j d rem b : ℕ)
    → j < 128
    → (if leb d (2 * rem + b)
        then set_bit (record { hi = hi; lo = q * 2 ^ suc j }) j
        else record { hi = hi; lo = q * 2 ^ suc j })
      ≡ record { hi = hi; lo = (2 * q + digit d rem b) * 2 ^ j }
unfolding set_bit
digit_low hi q j d rem b h = ground (arith, one_bit j q h, ap (λ (t : ℕ). q * t) (pow-suc 2 j))

unique_quotient : (n d q r : ℕ) → q * d + r ≡ n → r < d → (q ≡ n / d) × (r ≡ n % d)
unique_quotient n d q r e h = (grind arith, grind arith)

-- The first 128 rounds divide the high word.
high_rounds :
    (u : U256) (d j q rem : ℕ)
    → j ≤ 128
    → q * d + rem ≡ u.hi / 2 ^ j
    → rem < d
    → d < 2 ^ 128
    → div_loop u d (j + 128) (record { hi = q * 2 ^ j; lo = 0 }, rem)
      ≡ div_loop u d 128 (record { hi = u.hi / d; lo = 0 }, u.hi % d)
unfolding div_loop
high_rounds u d zero q rem hj e hr hd =
    let r = unique_quotient u.hi d q rem (omega arith) hr in rw (← r.0, ← r.1, mul-one)
high_rounds u d (suc j) q rem hj e hr hd =
    let b = u.hi / 2 ^ j % 2 in
    let n =
      next_digit d rem b (u.hi / 2 ^ suc j) (u.hi / 2 ^ j) q e hr (half_div u.hi j) (omega arith) in
    rw
      (
        suc-add,
        div_loop,
        div_step_lem u (record { hi = q * 2 ^ suc j; lo = 0 }) d (j + 128) rem b hr hd
            (bit_high u j) (omega arith),
        digit_high u q j d rem b (omega arith),
      )
      (high_rounds u d j (2 * q + digit d rem b) (left d rem b) (omega arith) n.0 n.1 hd)

-- The last 128 rounds divide what remained and the low word.
low_rounds :
    (u : U256) (d j k q r rem hi : ℕ)
    → j + k ≡ 128
    → q * d + rem ≡ r * 2 ^ k + u.lo / 2 ^ j
    → rem < d
    → d < 2 ^ 128
    → div_loop u d j (record { hi = hi; lo = q * 2 ^ j }, rem)
      ≡ (record { hi = hi; lo = (r * 2 ^ 128 + u.lo) / d }, (r * 2 ^ 128 + u.lo) % d)
unfolding div_loop
low_rounds u d zero k q r rem hi ek e hr hd =
    let ek' : k ≡ 128 = omega arith in
    let e' : q * d + rem ≡ r * 2 ^ 128 + u.lo =
      subst (λ t. q * d + rem ≡ r * 2 ^ t + u.lo) ek' (omega arith) in
    let p = unique_quotient (r * 2 ^ 128 + u.lo) d q rem e' hr in rw (← p.0, ← p.1, mul-one)
low_rounds u d (suc j) k q r rem hi ek e hr hd =
    let b = u.lo / 2 ^ j % 2 in
    let n =
      next_digit d rem b (r * 2 ^ k + u.lo / 2 ^ suc j) (r * 2 ^ suc k + u.lo / 2 ^ j) q e hr
        (omega (arith, half_div u.lo j, ap (λ (t : ℕ). r * t) (pow-suc 2 k))) (omega arith) in
    rw
      (
        div_step_lem u (record { hi = hi; lo = q * 2 ^ suc j }) d j rem b hr hd
            (bit_low u j (omega arith)) (omega arith),
        digit_low hi q j d rem b (omega arith),
      )
      (low_rounds u d j (suc k) (2 * q + digit d rem b) r (left d rem b) hi (omega arith) n.0 n.1
        hd)

join_quotients :
    (hi lo d : ℕ)
    → lo < 2 ^ 128
    → 0 < d
    → (hi / d ≡ (hi * 2 ^ 128 + lo) / d / 2 ^ 128)
      × ((hi % d * 2 ^ 128 + lo) / d ≡ (hi * 2 ^ 128 + lo) / d % 2 ^ 128)
      × ((hi % d * 2 ^ 128 + lo) % d ≡ (hi * 2 ^ 128 + lo) % d)
join_quotients hi lo d h pd =
    let x = (hi % d * 2 ^ 128 + lo) / d in
    let r = (hi % d * 2 ^ 128 + lo) % d in
    let e : x * d + r ≡ hi % d * 2 ^ 128 + lo =
      omega (arith, div-add-mod (hi % d * 2 ^ 128 + lo) d) in
    let f : d * (hi / d) + hi % d ≡ hi = div-add-mod hi d in
    let lt : x < 2 ^ 128 = grind arith in
    let u =
      unique_quotient (hi * 2 ^ 128 + lo) d (hi / d * 2 ^ 128 + x) r (omega arith) (grind arith) in
    (omega arith, omega arith, u.1)

-- Division by a u128 that is not 0 gives the exact quotient and remainder.
pub div_rem-exact :
    (u : U256) (d : ℕ)
    → IsU256 u
    → 0 < d
    → d < 2 ^ 128
    → div_rem u d ≡ some (halves (value u / d), value u % d)
unfolding div_rem
div_rem-exact u d h pd hd =
    let j = join_quotients u.hi u.lo d h.1 pd in
    let top = high_rounds u d 128 0 0 (omega arith) (omega arith) pd hd in
    let rest =
      low_rounds u d 128 0 0 (u.hi % d) (u.hi % d) (u.hi / d) (omega arith) (omega arith)
        (grind arith) hd in
    let run : div_loop u d 256 (record { hi = 0; lo = 0 }, 0)
        ≡ (halves (value u / d), value u % d) =
      top ∙ rest ∙ (λ i. (record { hi = j.0 i; lo = j.1 i }, j.2 i)) in
    ground (arith, run)

-- Division by 0 is refused.
pub div_rem-zero : (u : U256) → div_rem u 0 ≡ none
unfolding div_rem
div_rem-zero u = refl

product_lt : (a b : ℕ) → a < 2 ^ 128 → b < 2 ^ 128 → a * b < 2 ^ 128 * 2 ^ 128
product_lt a b ha hb = grind arith

product_IsU256 :
    (a b : ℕ)
    → a < 2 ^ 128
    → b < 2 ^ 128
    → (value (halves (a * b)) ≡ a * b) × IsU256 (halves (a * b))
product_IsU256 a b ha hb =
    let lt : a * b < 2 ^ 128 * 2 ^ 128 = product_lt a b ha hb in
    (omega arith, (omega arith, omega arith))

pub low_u128-halves : (n : ℕ) → low_u128 (halves n) ≡ fits u128_max n
unfolding low_u128
low_u128-halves n = ground arith

-- What `mul_div` and `mul_div_up` divide.
product_division :
    (a b d : ℕ)
    → a < 2 ^ 128
    → b < 2 ^ 128
    → 0 < d
    → d < 2 ^ 128
    → div_rem (mul a b) d ≡ some (halves (a * b / d), a * b % d)
product_division a b d ha hb pd hd =
    let p = product_IsU256 a b ha hb in
    rw (mul-halves a b, div_rem-exact (halves (a * b)) d p.1 pd hd, p.0)

-- `mul_div` is the rounded-down fraction, refused exactly when it is no u128 or d is 0.
pub mul_div-floor :
    (a b d : ℕ)
    → a < 2 ^ 128
    → b < 2 ^ 128
    → d < 2 ^ 128
    → mul_div a b d ≡ (if d == 0 then none else fits u128_max (a * b / d))
unfolding mul_div
mul_div-floor a b zero ha hb hd = rw (div_rem-zero, mul_div)
mul_div-floor a b (suc d) ha hb hd =
    rw (product_division a b (suc d) ha hb (omega arith) hd, mul_div)
      (ground (arith, low_u128-halves (a * b / suc d)))

ceil_exact : (n d : ℕ) → 0 < d → n % d ≡ 0 → n / d ≡ div_ceil n d
ceil_exact n d h e =
    (unique_quotient (n + (d - 1)) d (n / d) (d - 1) (omega (arith, div-add-mod n d))
      (omega arith)).0

ceil_above : (n d : ℕ) → 0 < d → 0 < n % d → n / d + 1 ≡ div_ceil n d
ceil_above n d h lt =
    (unique_quotient (n + (d - 1)) d (n / d + 1) (n % d - 1) (omega (arith, div-add-mod n d))
      (grind arith)).0

ceil_of_floor : (n d : ℕ) → 0 < d → n / d + (if n % d != 0 then 1 else 0) ≡ div_ceil n d
ceil_of_floor n d h = ground (arith, ceil_exact n d h, ceil_above n d h)

-- `mul_div_up` is the rounded-up fraction, refused exactly when that is no u128 or d is 0.
pub mul_div_up-ceil :
    (a b d : ℕ)
    → a < 2 ^ 128
    → b < 2 ^ 128
    → d < 2 ^ 128
    → mul_div_up a b d ≡ (if d == 0 then none else fits u128_max (div_ceil (a * b) d))
unfolding mul_div_up
mul_div_up-ceil a b zero ha hb hd = rw (div_rem-zero, mul_div_up)
mul_div_up-ceil a b (suc d) ha hb hd =
    rw (product_division a b (suc d) ha hb (omega arith) hd, mul_div_up)
      (ground (arith, low_u128-halves (a * b / suc d), ceil_of_floor (a * b) (suc d) (omega arith)))
