-- ===== src/Base/Int.antt =====
-- Signed integers over the native numbers: i64 and i128 values and the operations on them.
use mobius_searcher.Base.{
  ℕ, suc, ◌+◌, ◌-◌, ◌*◌, ◌/◌, ◌≤◌, ◌<◌, ◌≡◌, refl, Bool, true, arith, ltb, leb, if◌then◌else◌,
}

-- `negsuc n` is -(n + 1).
pub data ℤ : Type 0 where
  pos : ℕ → ℤ
  negsuc : ℕ → ℤ

abbrev pub pos_part : ℤ → ℕ
pos_part (pos n) = n
pos_part (negsuc n) = 0

abbrev pub neg_part : ℤ → ℕ
neg_part (pos n) = 0
neg_part (negsuc n) = suc n

-- a - b, as an integer.
abbrev pub sub_ℕ : ℕ → ℕ → ℤ
sub_ℕ a b = if leb b a then pos (a - b) else negsuc (b - a - 1)

infixl 65 ◌+ℤ◌ ◌-ℤ◌
infixl 70 ◌*ℤ◌
infix 50 ◌≤ℤ◌ ◌<ℤ◌
unfoldable pub ◌+ℤ◌ : ℤ → ℤ → ℤ
a +ℤ b = sub_ℕ (pos_part a + pos_part b) (neg_part a + neg_part b)

unfoldable pub ◌-ℤ◌ : ℤ → ℤ → ℤ
a -ℤ b = sub_ℕ (pos_part a + neg_part b) (neg_part a + pos_part b)

unfoldable pub ◌*ℤ◌ : ℤ → ℤ → ℤ
a *ℤ b =
    sub_ℕ (pos_part a * pos_part b + neg_part a * neg_part b)
      (pos_part a * neg_part b + neg_part a * pos_part b)

abbrev pub ◌≤ℤ◌ : ℤ → ℤ → Type 0
a ≤ℤ b = pos_part a + neg_part b ≤ pos_part b + neg_part a

abbrev pub ◌<ℤ◌ : ℤ → ℤ → Type 0
a <ℤ b = pos_part a + neg_part b < pos_part b + neg_part a

abbrev pub ltb_ℤ : ℤ → ℤ → Bool
ltb_ℤ a b = ltb (pos_part a + neg_part b) (pos_part b + neg_part a)

abbrev pub leb_ℤ : ℤ → ℤ → Bool
leb_ℤ a b = leb (pos_part a + neg_part b) (pos_part b + neg_part a)

abbrev pub neg_ℤ : ℤ → ℤ
neg_ℤ a = sub_ℕ (neg_part a) (pos_part a)

abbrev pub min_ℤ : ℤ → ℤ → ℤ
min_ℤ a b = if leb_ℤ a b then a else b

abbrev pub max_ℤ : ℤ → ℤ → ℤ
max_ℤ a b = if leb_ℤ a b then b else a

-- `x.clamp(lo, hi)` for lo ≤ hi.
abbrev pub clamp_ℤ : ℤ → ℤ → ℤ → ℤ
clamp_ℤ lo hi a = if ltb_ℤ a lo then lo else if ltb_ℤ hi a then hi else a

-- `a.div_euclid(d)` for d > 0: rounds towards minus infinity.
unfoldable pub div_euclid : ℤ → ℕ → ℤ
div_euclid (pos n) d = pos (n / d)
div_euclid (negsuc n) d = negsuc (n / d)

-- `a / b` for b ≠ 0: rounds towards zero.
unfoldable pub quot : ℤ → ℤ → ℤ
quot (pos n) (pos d) = pos (n / d)
quot (pos n) (negsuc d) = sub_ℕ 0 (n / suc d)
quot (negsuc n) (pos d) = sub_ℕ 0 (suc n / d)
quot (negsuc n) (negsuc d) = pos (suc n / suc d)

pub +ℤ_parts :
    (a b : ℤ)
    → pos_part (a +ℤ b) + neg_part a + neg_part b ≡ neg_part (a +ℤ b) + pos_part a + pos_part b
unfolding ◌+ℤ◌
+ℤ_parts a b = ground arith

pub -ℤ_parts :
    (a b : ℤ)
    → pos_part (a -ℤ b) + neg_part a + pos_part b ≡ neg_part (a -ℤ b) + pos_part a + neg_part b
unfolding ◌-ℤ◌
-ℤ_parts a b = ground arith

pub *ℤ_parts :
    (a b : ℤ)
    → pos_part (a *ℤ b) + (pos_part a * neg_part b + neg_part a * pos_part b)
      ≡ neg_part (a *ℤ b) + (pos_part a * pos_part b + neg_part a * neg_part b)
unfolding ◌*ℤ◌
*ℤ_parts a b = ground arith

pub eq_of_parts : (a b : ℤ) → pos_part a + neg_part b ≡ pos_part b + neg_part a → a ≡ b
eq_of_parts a b h = ground arith

pub ruleset int_laws = (arith, +ℤ_parts, -ℤ_parts, eq_of_parts)

-- `q` is `a / d` rounded towards minus infinity.
abbrev pub IsFloor : ℤ → ℤ → ℕ → Type 0
IsFloor q a d = (q *ℤ pos d ≤ℤ a) × (a <ℤ q *ℤ pos d +ℤ pos d)

pub div_euclid-IsFloor : (a : ℤ) (d : ℕ) → 0 < d → IsFloor (div_euclid a d) a d
unfolding div_euclid
div_euclid-IsFloor (pos n) d h = (
  grind (int_laws, *ℤ_parts (pos (n / d)) (pos d)),
  grind (int_laws, *ℤ_parts (pos (n / d)) (pos d)),
)
div_euclid-IsFloor (negsuc n) d h = (
  grind (int_laws, *ℤ_parts (negsuc (n / d)) (pos d)),
  grind (int_laws, *ℤ_parts (negsuc (n / d)) (pos d)),
)

-- Division by a positive number keeps the order.
pub div_euclid_mono : (a b : ℤ) (d : ℕ) → 0 < d → a ≤ℤ b → div_euclid a d ≤ℤ div_euclid b d
unfolding div_euclid
div_euclid_mono (pos n) (pos m) d h le = grind arith
div_euclid_mono (pos n) (negsuc m) d h le = ground arith
div_euclid_mono (negsuc n) (pos m) d h le = ground arith
div_euclid_mono (negsuc n) (negsuc m) d h le = grind arith

pub ≤ℤ_trans : (a b c : ℤ) → a ≤ℤ b → b ≤ℤ c → a ≤ℤ c
≤ℤ_trans a b c h k = omega arith

times_mono : (a b n : ℕ) → a ≤ b → a * n ≤ b * n
times_mono a b n h = grind arith

sums_mono : (x y z w n : ℕ) → x + y ≤ z + w → x * n + y * n ≤ z * n + w * n
sums_mono x y z w n h = omega (arith, times_mono (x + y) (z + w) n h)

-- Multiplication by a number that is not negative keeps the order.
pub *ℤ_mono : (a b : ℤ) (n : ℕ) → a ≤ℤ b → a *ℤ pos n ≤ℤ b *ℤ pos n
*ℤ_mono a b n h = omega (
  arith,
  *ℤ_parts a (pos n),
  *ℤ_parts b (pos n),
  sums_mono (pos_part a) (neg_part b) (pos_part b) (neg_part a) n h,
)
