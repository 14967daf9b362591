-- ===== src/Market/Amm/Math/Wide.antt =====
-- The 256-bit operations of amm/math.rs against the numbers that they stand for.
use Prim.Native.Nat.{bit_and, bit_or}
use mathlib.Core.Path.{ap₂}
use native.Mathlib.Nat.{pow-suc, zero-add, suc-add, one-le-pow, div-add-mod}
use mobius_searcher.Base.{
  ℕ, zero, suc, ◌+◌, ◌-◌, ◌*◌, ◌/◌, ◌%◌, ◌^◌, ◌<◌, ◌≤◌, ◌≡◌, ap, sym, ◌∙◌, none, some, arith, ltb,
  if◌then◌else◌,
}
use mobius_searcher.Base.Bits.{bit_and_mask, bit_or_swap, bit_or_high}
use mobius_searcher.Market.Amm.Math.{U256, mul, shl, low, checked_shl, checked_add}

abbrev pub value : U256 → ℕ
value u = u.hi * 2 ^ 128 + u.lo

-- The two halves of a number.
abbrev pub halves : ℕ → U256
halves n = record { hi = n / 2 ^ 128; lo = n % 2 ^ 128 }

abbrev pub IsU256 : U256 → Type 0
IsU256 u = (u.hi < 2 ^ 128) × (u.lo < 2 ^ 128)

-- Schoolbook multiplication on four 64-bit digits.
four_digits :
    (a1 a0 b1 b0 : ℕ)
    → (a1 * 2 ^ 64 + a0) * (b1 * 2 ^ 64 + b0)
      ≡ a1 * b1 * 2 ^ 128 + (a0 * b1 + a1 * b0) * 2 ^ 64 + a0 * b0
four_digits a1 a0 b1 b0 = grind arith

-- The carries: with the four partial products given, the two halves hold the sum.
carries :
    (p11 p10 p01 p00 n : ℕ)
    → n ≡ p11 * 2 ^ 128 + (p01 + p10) * 2 ^ 64 + p00
    → let mid = p00 / 2 ^ 64 + p01 % 2 ^ 64 + p10 % 2 ^ 64 in
      (p11 + p01 / 2 ^ 64 + p10 / 2 ^ 64 + mid / 2 ^ 64 ≡ n / 2 ^ 128)
      × (mid % 2 ^ 64 * 2 ^ 64 + p00 % 2 ^ 64 ≡ n % 2 ^ 128)
carries p11 p10 p01 p00 n e = (omega arith, omega arith)

shl_64 : (x : ℕ) → shl x 64 ≡ x % 2 ^ 64 * 2 ^ 64
shl_64 x = omega arith

low_and_mid : (p mid : ℕ) → bit_or (p % 2 ^ 64) (shl mid 64) ≡ mid % 2 ^ 64 * 2 ^ 64 + p % 2 ^ 64
low_and_mid p mid = rw (shl_64 mid) (bit_or_swap 64 (mid % 2 ^ 64) (p % 2 ^ 64) (omega arith))

mask_64 : (x : ℕ) → bit_and x low ≡ x % 2 ^ 64
mask_64 x = bit_and_mask 64 x

rejoin : (a : ℕ) → a / 2 ^ 64 * 2 ^ 64 + a % 2 ^ 64 ≡ a
rejoin a = omega arith

partial_products :
    (a b : ℕ)
    → a * b
      ≡ a / 2 ^ 64 * (b / 2 ^ 64) * 2 ^ 128
        + (a % 2 ^ 64 * (b / 2 ^ 64) + a / 2 ^ 64 * (b % 2 ^ 64)) * 2 ^ 64
        + a % 2 ^ 64 * (b % 2 ^ 64)
partial_products a b =
    ap₂ (λ (x y : ℕ). x * y) (sym (rejoin a)) (sym (rejoin b))
    ∙ four_digits (a / 2 ^ 64) (a % 2 ^ 64) (b / 2 ^ 64) (b % 2 ^ 64)

-- The product of two u128 values is exact.
pub mul-halves : (a b : ℕ) → mul a b ≡ halves (a * b)
unfolding mul
mul-halves a b =
    let a1 = a / 2 ^ 64 in
    let b1 = b / 2 ^ 64 in
    let a0 = a % 2 ^ 64 in
    let b0 = b % 2 ^ 64 in
    let c = carries (a1 * b1) (a1 * b0) (a0 * b1) (a0 * b0) (a * b) (partial_products a b) in
    simp mask_64 (simp low_and_mid (λ i. record { hi = c.0 i; lo = c.1 i }))

pub pow_add : (m n : ℕ) → 2 ^ (m + n) ≡ 2 ^ m * 2 ^ n
pow_add zero n = rw zero-add (omega arith)
pow_add (suc m) n = rw (suc-add, pow-suc, pow-suc, pow_add m n) (omega arith)

pub pow_split : (n : ℕ) → n < 128 → 2 ^ n * 2 ^ (128 - n) ≡ 2 ^ 128
pow_split n h =
    let e : 128 ≡ n + (128 - n) = omega arith in sym (ap (λ (t : ℕ). 2 ^ t) e ∙ pow_add n (128 - n))

div_of_eq : (n d q r : ℕ) → n ≡ d * q + r → r < d → n / d ≡ q
div_of_eq n d q r e h = grind arith

mul_lt : (a b c : ℕ) → a < b → 0 < c → a * c < b * c
mul_lt a b c h p = grind arith

mul_le : (a b c : ℕ) → a ≤ b → a * c ≤ b * c
mul_le a b c h = grind arith

-- Shifting by `n`, with P = 2 ^ n, R = 2 ^ (128 - n) and M = 2 ^ 128 = P * R.
module _ (hi lo P R M : ℕ) (split : P * R ≡ M) (pos_P : 0 < P) (pos_R : 0 < R)
    (lo_lt : lo < M) where
  lo_carry : lo * P / M ≡ lo / R
  lo_carry =
      div_of_eq (lo * P) M (lo / R) (lo % R * P)
        (omega
          (arith, ap (λ (t : ℕ). t * (lo / R)) split, ap (λ (t : ℕ). t * P) (div-add-mod lo R)))
        (omega (arith, mul_lt (lo % R) R P (omega arith) pos_P))

  shl_kept : hi < R → (hi * P < M) × (lo / R < P) × (lo / R ≡ lo * P / M)
  shl_kept h = (omega (arith, mul_lt hi R P h pos_P), grind arith, sym lo_carry)

  shl_kept_lt : hi < R → (hi * M + lo) * P < M * M
  shl_kept_lt h = omega (
    arith,
    mul_lt (hi * M + lo) (hi * M + M) P (omega arith) pos_P,
    mul_le (hi + 1) R (M * P) (omega arith),
    ap (λ (t : ℕ). t * M) split,
  )

  quotient_test : (hi < R → hi / R ≡ 0) × (R ≤ hi → 0 < hi / R)
  quotient_test = (λ h. grind arith, λ h. grind arith)

  shl_lost : R ≤ hi → M * M ≤ (hi * M + lo) * P
  shl_lost h = omega (arith, mul_le R hi (M * P) h, ap (λ (t : ℕ). t * M) split)

-- A shift by less than 128 multiplies, and is refused exactly when bits would be lost.
pub checked_shl-halves :
    (u : U256) (n : ℕ)
    → IsU256 u
    → n < 128
    → checked_shl u n
      ≡ (if ltb (value u * 2 ^ n) (2 ^ 256) then some (halves (value u * 2 ^ n)) else none)
unfolding checked_shl
checked_shl-halves u zero h lt = ground arith
checked_shl-halves u (suc n) h lt =
    let P = 2 ^ suc n in
    let R = 2 ^ (128 - suc n) in
    let M = 2 ^ 128 in
    let split : P * R ≡ M = pow_split (suc n) lt in
    let pos_P : 0 < P = one-le-pow (suc n) 2 (omega arith) in
    let pos_R : 0 < R = one-le-pow (128 - suc n) 2 (omega arith) in
    ground (
      arith,
      lo_carry u.hi u.lo P R M split pos_P pos_R h.1,
      shl_kept u.hi u.lo P R M split pos_P pos_R h.1,
      shl_kept_lt u.hi u.lo P R M split pos_P pos_R h.1,
      shl_lost u.hi u.lo P R M split pos_P pos_R h.1,
      quotient_test u.hi u.lo P R M split pos_P pos_R h.1,
      bit_or_high (suc n) u.hi (u.lo / R),
    )

-- The sum, refused exactly when it leaves 256 bits.
pub checked_add-halves :
    (u v : U256)
    → IsU256 u
    → IsU256 v
    → checked_add u v
      ≡ (if ltb (value u + value v) (2 ^ 256) then some (halves (value u + value v)) else none)
unfolding checked_add
checked_add-halves u v hu hv = ground arith
