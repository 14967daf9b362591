-- ===== src/Base/Bits.antt =====
-- The bit operations of the source as arithmetic: `x & (2^k - 1)` is a remainder, and `|` of
-- values that share no bit is a sum.
use Prim.Native.Nat.{bit_and, bit_or, digits, bit_and-bitwise, bit_or-bitwise}
use mathlib.Core.WellFounded
use native.Mathlib.Nat.{pow-suc, one-le-pow}
use mobius_searcher.Base.{
  ℕ, zero, suc, ◌+◌, ◌-◌, ◌*◌, ◌/◌, ◌%◌, ◌^◌, ◌≤◌, ◌<◌, ◌≡◌, refl, ap, min, max, arith,
}
use mobius_searcher.Base.Order.{lt_wf}

-- The recursion on digits stops at 0, so any fuel from the first operand on gives the same.
more_fuel :
    (z : ℕ → ℕ) (f : ℕ → ℕ → ℕ) (n m x y : ℕ) → x ≤ n → x ≤ m → digits z f n x y ≡ digits z f m x y
more_fuel z f zero zero x y hn hm = refl
more_fuel z f zero (suc m) zero y hn hm = refl
more_fuel z f zero (suc m) (suc x) y hn hm = absurd (omega arith)
more_fuel z f (suc n) zero zero y hn hm = refl
more_fuel z f (suc n) zero (suc x) y hn hm = absurd (omega arith)
more_fuel z f (suc n) (suc m) zero y hn hm = refl
more_fuel z f (suc n) (suc m) (suc x) y hn hm =
    omega (arith, more_fuel z f n m (suc x / 2) (y / 2) (omega arith) (omega arith))

-- One equation for the lowest bit.
bit_or_low : (x y : ℕ) → bit_or x y ≡ 2 * bit_or (x / 2) (y / 2) + max (x % 2) (y % 2)
bit_or_low zero y = omega (arith, bit_or-bitwise 0 y, bit_or-bitwise 0 (y / 2))
bit_or_low (suc x) y = omega (
  arith,
  bit_or-bitwise (suc x) y,
  bit_or-bitwise (suc x / 2) (y / 2),
  more_fuel (λ b. b) max x (suc x / 2) (suc x / 2) (y / 2) (omega arith) (omega arith),
)

bit_and_low : (x y : ℕ) → bit_and x y ≡ 2 * bit_and (x / 2) (y / 2) + min (x % 2) (y % 2)
bit_and_low zero y = omega (arith, bit_and-bitwise 0 y, bit_and-bitwise 0 (y / 2))
bit_and_low (suc x) y = omega (
  arith,
  bit_and-bitwise (suc x) y,
  bit_and-bitwise (suc x / 2) (y / 2),
  more_fuel (λ b. zero) min x (suc x / 2) (suc x / 2) (y / 2) (omega arith) (omega arith),
)

abbrev OrZero : ℕ → Type 0
OrZero x = bit_or x 0 ≡ x

OrZero-step : (x : ℕ) → ((m : ℕ) → m < x → OrZero m) → OrZero x
OrZero-step zero ih = refl
OrZero-step (suc x) ih = omega (arith, bit_or_low (suc x) 0, ih (suc x / 2) (omega arith))

pub bit_or-zero : (x : ℕ) → bit_or x 0 ≡ x
bit_or-zero x = WellFounded.induction lt_wf {C = OrZero} x OrZero-step

pub zero-bit_or : (x : ℕ) → bit_or 0 x ≡ x
zero-bit_or x = omega (arith, bit_or-bitwise 0 x)

abbrev AndZero : ℕ → Type 0
AndZero x = bit_and x 0 ≡ 0

AndZero-step : (x : ℕ) → ((m : ℕ) → m < x → AndZero m) → AndZero x
AndZero-step zero ih = refl
AndZero-step (suc x) ih = omega (arith, bit_and_low (suc x) 0, ih (suc x / 2) (omega arith))

bit_and-zero : (x : ℕ) → bit_and x 0 ≡ 0
bit_and-zero x = WellFounded.induction lt_wf {C = AndZero} x AndZero-step

double_pow : (q k : ℕ) → q * 2 ^ suc k ≡ 2 * (q * 2 ^ k)
double_pow q k = omega (arith, ap (λ (t : ℕ). q * t) (pow-suc 2 k))

-- `(q << k) | r` with `r` below `2 ^ k`.
pub bit_or_high : (k q r : ℕ) → r < 2 ^ k → bit_or (q * 2 ^ k) r ≡ q * 2 ^ k + r
bit_or_high zero q r h = ground (arith, bit_or-zero q)
bit_or_high (suc k) q r h = ground (
  arith,
  double_pow q k,
  pow-suc 2 k,
  bit_or_low (q * 2 ^ suc k) r,
  bit_or_high k q (r / 2) (omega (arith, pow-suc 2 k)),
)

-- The same with the operands the other way round.
pub bit_or_swap : (k q r : ℕ) → r < 2 ^ k → bit_or r (q * 2 ^ k) ≡ q * 2 ^ k + r
bit_or_swap zero q r h = ground (arith, zero-bit_or q)
bit_or_swap (suc k) q r h = ground (
  arith,
  double_pow q k,
  pow-suc 2 k,
  bit_or_low r (q * 2 ^ suc k),
  bit_or_swap k q (r / 2) (omega (arith, pow-suc 2 k)),
)

mask_keeps_low : (k q r : ℕ) → r < 2 ^ k → bit_and (q * 2 ^ k + r) (2 ^ k - 1) ≡ r
mask_keeps_low zero q r h = omega (arith, bit_and-zero (q * 1 + r))
mask_keeps_low (suc k) q r h = ground (
  arith,
  pow-suc 2 k,
  double_pow q k,
  one-le-pow k 2,
  bit_and_low (q * 2 ^ suc k + r) (2 ^ suc k - 1),
  mask_keeps_low k q (r / 2) (omega (arith, pow-suc 2 k)),
)

-- A mask of `k` ones.
pub bit_and_mask : (k x : ℕ) → bit_and x (2 ^ k - 1) ≡ x % 2 ^ k
bit_and_mask k x = ground (arith, one-le-pow k 2, mask_keeps_low k (x / 2 ^ k) (x % 2 ^ k))
