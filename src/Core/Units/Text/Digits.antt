-- ===== src/Core/Units/Text/Digits.antt =====
-- The digits that the texts of crates/core/src/units.rs are made of.
use native.Mathlib.Nat.{pow-suc}
use mobius_searcher.Base.{
  ℕ, zero, suc, ◌+◌, ◌-◌, ◌*◌, ◌/◌, ◌%◌, ◌^◌, ◌≤◌, ◌<◌, ◌≡◌, refl, ap, ◌∙◌, true, false, List, [],
  ◌∷◌, ◌++◌, length, replicate, ltb, arith, All, Bool-cases, inl, inr, length-append,
}
use mobius_searcher.Core.Units.Text.{
  is_space, trim_start, trim_end, trim, split_point, all_digits, value_from, digits_within, padded,
  truncate,
}

abbrev pub IsDigit : ℕ → Type 0
IsDigit c = (b'0' ≤ c) × (c ≤ b'9')

-- A digit, a point or a minus.
abbrev pub IsPlain : ℕ → Type 0
IsPlain c = (b'-' ≤ c) × (c ≤ b'9')

All-append {ℓ κ} :
    {A : Type ℓ} (P : A → Type κ) (xs ys : List A) → All P xs → All P ys → All P (xs ++ ys)
All-append P [] ys h k = k
All-append P (x ∷ xs) ys h k = (h.0, All-append P xs ys h.1 k)

pub digits_within-IsDigit : (k n : ℕ) → All IsDigit (digits_within k n)
unfolding digits_within
digits_within-IsDigit zero n = tt
digits_within-IsDigit (suc k) n = elim (Bool-cases (ltb n 10)) [
  | inl small ↦ rw small ((ground arith, ground arith), tt)
  | inr big ↦ rw big (
      All-append IsDigit (digits_within k (n / 10)) ((n % 10 + b'0') ∷ [])
        (digits_within-IsDigit k (n / 10)) ((omega arith, omega arith), tt))
]

pub digits_within-pos : (k n : ℕ) → 0 < length (digits_within (suc k) n)
unfolding digits_within
digits_within-pos k n = elim (Bool-cases (ltb n 10)) [
  | inl small ↦ rw small (omega arith)
  | inr big ↦
      rw big (omega (arith, length-append (digits_within k (n / 10)) ((n % 10 + b'0') ∷ [])))
]

value_from-append :
    (acc : ℕ) (xs ys : List ℕ) → value_from acc (xs ++ ys) ≡ value_from (value_from acc xs) ys
unfolding value_from
value_from-append acc [] ys = refl
value_from-append acc (x ∷ xs) ys = value_from-append (acc * 10 + (x - b'0')) xs ys

-- The digits of a number have its value.
pub value-digits_within : (k n : ℕ) → n < 10 ^ k → value_from 0 (digits_within k n) ≡ n
unfolding digits_within value_from
value-digits_within zero n h = omega arith
value-digits_within (suc k) n h = elim (Bool-cases (ltb n 10)) [
  | inl small ↦ rw small (omega arith)
  | inr big ↦
      let ih = value-digits_within k (n / 10) (omega (arith, pow-suc 10 k)) in
      rw big
        (value_from-append 0 (digits_within k (n / 10)) ((n % 10 + b'0') ∷ []) ∙ omega (arith, ih))
]

-- As many digits as the number needs.
pub length-digits_within : (k n w : ℕ) → n < 10 ^ suc w → length (digits_within k n) ≤ suc w
unfolding digits_within
length-digits_within zero n w h = omega arith
length-digits_within (suc k) n w h = elim (Bool-cases (ltb n 10)) [
  | inl small ↦ rw small (omega arith)
  | inr big ↦ rw big (longer (λ v low. length-digits_within k (n / 10) v low) w h (ground arith))
]
  where
    longer :
        ((v : ℕ) → n / 10 < 10 ^ suc v → length (digits_within k (n / 10)) ≤ suc v)
        → (w : ℕ) → n < 10 ^ suc w
        → 10 ≤ n
        → length (digits_within k (n / 10) ++ ((n % 10 + b'0') ∷ [])) ≤ suc w
    longer ih zero h big = absurd (omega (arith, pow-suc 10 0))
    longer ih (suc v) h big = omega (
      arith,
      length-append (digits_within k (n / 10)) ((n % 10 + b'0') ∷ []),
      ih v (omega (arith, pow-suc 10 (suc v))),
    )

replicate-IsDigit : (k : ℕ) → All IsDigit (replicate k b'0')
replicate-IsDigit zero = tt
replicate-IsDigit (suc k) = ((omega arith, omega arith), replicate-IsDigit k)

pub padded-IsDigit : (w : ℕ) (ds : List ℕ) → All IsDigit ds → All IsDigit (padded w ds)
unfolding padded
padded-IsDigit w ds h =
    All-append IsDigit (replicate (w - length ds) b'0') ds (replicate-IsDigit (w - length ds)) h

value-zeros : (k : ℕ) (ds : List ℕ) → value_from 0 (replicate k b'0' ++ ds) ≡ value_from 0 ds
unfolding value_from
value-zeros zero ds = refl
value-zeros (suc k) ds = value-zeros k ds

pub value-padded : (w : ℕ) (ds : List ℕ) → value_from 0 (padded w ds) ≡ value_from 0 ds
unfolding padded
value-padded w ds = value-zeros (w - length ds) ds

length-replicate : (k c : ℕ) → length (replicate k c) ≡ k
length-replicate zero c = refl
length-replicate (suc k) c = omega (arith, length-replicate k c)

pub length-padded : (w : ℕ) (ds : List ℕ) → length ds ≤ w → length (padded w ds) ≡ w
unfolding padded
length-padded w ds h = omega (
  arith,
  length-append (replicate (w - length ds) b'0') ds,
  length-replicate (w - length ds) b'0',
)

pub truncate_all : (k : ℕ) (cs : List ℕ) → length cs ≡ k → truncate k cs ≡ cs
unfolding truncate
truncate_all zero [] h = refl
truncate_all zero (c ∷ cs) h = absurd (omega arith)
truncate_all (suc k) [] h = absurd (omega arith)
truncate_all (suc k) (c ∷ cs) h = ap (λ (xs : List ℕ). c ∷ xs) (truncate_all k cs (omega arith))

pub all_digits-IsDigit : (cs : List ℕ) → All IsDigit cs → all_digits cs ≡ true
unfolding all_digits
all_digits-IsDigit [] h = refl
all_digits-IsDigit (c ∷ cs) h = ground (arith, all_digits-IsDigit cs h.1)

-- Digits, a point or a minus are not trimmed.
plain_space : (c : ℕ) → IsPlain c → is_space c ≡ false
unfolding is_space
plain_space c h = ground arith

trim_start-plain : (cs : List ℕ) → All IsPlain cs → trim_start cs ≡ cs
unfolding trim_start
trim_start-plain [] h = refl
trim_start-plain (c ∷ cs) h = rw (plain_space c h.0)

trim_end-plain : (cs : List ℕ) → All IsPlain cs → trim_end cs ≡ cs
unfolding trim_end
trim_end-plain [] h = refl
trim_end-plain (c ∷ []) h = rw (plain_space c h.0)
trim_end-plain (c ∷ d ∷ ds) h = rw (trim_end-plain (d ∷ ds) h.1)

pub trim-plain : (cs : List ℕ) → All IsPlain cs → trim cs ≡ cs
unfolding trim
trim-plain cs h = rw (trim_start-plain cs h) (trim_end-plain cs h)

pub All-IsPlain : (cs : List ℕ) → All IsDigit cs → All IsPlain cs
All-IsPlain [] h = tt
All-IsPlain (c ∷ cs) h = ((omega arith, omega arith), All-IsPlain cs h.1)

-- The first point is found behind the digits.
pub split_digits : (ds f : List ℕ) → All IsDigit ds → split_point (ds ++ (b'.' ∷ f)) ≡ (ds, f)
unfolding split_point
split_digits [] f h = refl
split_digits (d ∷ ds) f h = ground (arith, split_digits ds f h.1)

pub split_none : (ds : List ℕ) → All IsDigit ds → split_point ds ≡ (ds, [])
unfolding split_point
split_none [] h = refl
split_none (d ∷ ds) h = ground (arith, split_none ds h.1)
