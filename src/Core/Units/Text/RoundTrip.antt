-- ===== src/Core/Units/Text/RoundTrip.antt =====
-- What `parse_signed_decimal` reads of what `format_atoms` writes, crates/core/src/units.rs.
use native.Mathlib.Nat.{one-le-pow, mod-add-div', div-le_self, mod-lt, pow-le-pow_right}
use mobius_searcher.Base.{
  ℕ, zero, suc, ◌+◌, ◌-◌, ◌*◌, ◌/◌, ◌%◌, ◌^◌, ◌≤◌, ◌<◌, ◌≡◌, refl, ap, ◌∙◌, true, false, some, List,
  [], ◌∷◌, ◌++◌, length, ltb, leb, min, arith, All, length-append, le→leb,
}
use mobius_searcher.Base.Int.{ℤ, pos, negsuc, pos_part, neg_part}
use mobius_searcher.Base.Words.{u128_max, fits}
use mobius_searcher.Core.Units.Text.{
  Parsed, ok, split_point, value_from, number, pow10, combine, parse_parts, parse_trimmed,
  parse_decimal, strip_minus, parse_signed_decimal, digits_within, digits_of, padded, truncate,
  with_point, with_sign, format_atoms,
}
use mobius_searcher.Core.Units.Text.Digits.{
  IsDigit, IsPlain, digits_within-IsDigit, value-digits_within, length-digits_within,
  digits_within-pos, padded-IsDigit, value-padded, length-padded, truncate_all, all_digits-IsDigit,
  trim-plain, All-IsPlain, split_digits, split_none,
}

-- A power of ten that is a u128.
pow10-exact : (d : ℕ) → d ≤ 38 → pow10 d ≡ 10 ^ d
unfolding pow10
pow10-exact d h = let top : 10 ^ d ≤ 10 ^ 38 = pow-le-pow_right (omega arith) h in omega arith

of_digits : (n : ℕ) → n < 2 ^ 64 → value_from 0 (digits_of n) ≡ n
unfolding digits_of
of_digits n h = value-digits_within 39 n (omega arith)

-- The digits behind the point: exactly as many as there are decimals.
frac_text : ℕ → ℕ → List ℕ
frac_text d f = padded d (digits_of f)

length-frac_text : (d f : ℕ) → f < 10 ^ suc d → length (frac_text (suc d) f) ≡ suc d
unfolding frac_text digits_of
length-frac_text d f h = length-padded (suc d) (digits_within 39 f) (length-digits_within 39 f d h)

keep : (top v : ℕ) → v ≤ top → fits top v ≡ some v
keep top v h = ground arith

sum_parts :
    (decimals q r s : ℕ)
    → pow10 decimals ≡ s
    → q * s + r < 2 ^ 63
    → combine decimals decimals (some q) (some r) ≡ ok (q * s + r)
unfolding combine
sum_parts decimals q r s e h =
    let none_left : decimals - decimals ≡ 0 = omega arith in
    let same : r * 1 % 2 ^ 128 ≡ r = omega arith in
    rw
      (
        e,
        keep u128_max (q * s) (omega arith),
        none_left,
        same,
        keep u128_max (q * s + r) (omega arith),
      )
      (ground arith)

div_parts : (n s : ℕ) → n / s * s + n % s ≡ n
div_parts n s = omega (arith, mod-add-div' n s)

combine-exact :
    (n d : ℕ) → d ≤ 38 → n < 2 ^ 63 → combine d d (some (n / 10 ^ d)) (some (n % 10 ^ d)) ≡ ok n
combine-exact n d h low =
    let e = div_parts n (10 ^ d) in
    sum_parts d (n / 10 ^ d) (n % 10 ^ d) (10 ^ d) (pow10-exact d h) (omega arith)
    ∙ ap (λ (t : ℕ). Parsed.ok t) e

number-digits : (cs : List ℕ) (v : ℕ) → value_from 0 cs ≡ v → v < 2 ^ 64 → number cs ≡ some v
unfolding number
number-digits cs v e h = rw e (keep u128_max v (omega arith))

no_less : (d : ℕ) → ltb d d ≡ false
no_less d = ground arith

-- The parts of a text as they were written.
parts-exact :
    (n d : ℕ) (i f : List ℕ)
    → d ≤ 38
    → n < 2 ^ 63
    → All IsDigit i
    → All IsDigit f
    → length f ≡ d
    → value_from 0 i ≡ n / 10 ^ d
    → value_from 0 f ≡ n % 10 ^ d
    → parse_parts (i, f) d ≡ ok n
unfolding parse_parts
parts-exact n d i f h low di df len vi vf =
    let e = div_parts n (10 ^ d) in
    let q : n / 10 ^ d ≤ n = div-le_self n (10 ^ d) in
    let r : n % 10 ^ d ≤ n = omega arith in
    rw
      (
        all_digits-IsDigit i di,
        all_digits-IsDigit f df,
        len,
        number-digits i (n / 10 ^ d) vi (omega arith),
        number-digits f (n % 10 ^ d) vf (omega arith),
      )
      (rw (no_less d) (combine-exact n d h low))

-- The text of a number that is not negative.
plain_text : ℕ → ℕ → ℕ → List ℕ
unfolding frac_text
plain_text n d m =
    with_point (digits_of (n / 10 ^ d)) (truncate (min m d) (frac_text d (n % 10 ^ d)))

with_point-dot : (i f : List ℕ) → 0 < length f → with_point i f ≡ i ++ (b'.' ∷ f)
with_point-dot i [] h = absurd (omega arith)
with_point-dot i (c ∷ cs) h = refl

-- The text, and the parts in which it is read.
record ReadsAs (t : List ℕ) (n d : ℕ) : Type 0 where
  plain : All IsPlain t
  some_text : 0 < length t
  parts : parse_parts (split_point t) d ≡ ok n
  unsigned : strip_minus t ≡ (false, t)

digits_of-IsDigit : (n : ℕ) → All IsDigit (digits_of n)
unfolding digits_of
digits_of-IsDigit n = digits_within-IsDigit 39 n

length-digits_of : (n : ℕ) → 0 < length (digits_of n)
unfolding digits_of
length-digits_of n = digits_within-pos 38 n

no_point : (n m : ℕ) → plain_text n 0 m ≡ digits_of (n / 10 ^ 0)
unfolding plain_text truncate
no_point n m = let e : min m 0 ≡ 0 = omega arith in rw e

strip_digits :
    (i rest : List ℕ) → 0 < length i → All IsDigit i → strip_minus (i ++ rest) ≡ (false, i ++ rest)
unfolding strip_minus
strip_digits [] rest h k = absurd (omega arith)
strip_digits (c ∷ cs) rest h k = ground arith

strip_whole : (i : List ℕ) → 0 < length i → All IsDigit i → strip_minus i ≡ (false, i)
unfolding strip_minus
strip_whole [] h k = refl
strip_whole (c ∷ cs) h k = ground arith

whole-ReadsAs : (n : ℕ) → n < 2 ^ 63 → ReadsAs (digits_of (n / 10 ^ 0)) n 0
whole-ReadsAs n low =
    let i = digits_of (n / 10 ^ 0) in
    let digits = digits_of-IsDigit (n / 10 ^ 0) in
    record {
      plain = All-IsPlain i digits;
      some_text = length-digits_of (n / 10 ^ 0);
      parts = rw (split_none i digits) (
          parts-exact n 0 i [] (omega arith) low digits tt refl
            (of_digits (n / 10 ^ 0) (omega arith)) (unfold value_from in omega arith));
      unsigned = strip_whole i (length-digits_of (n / 10 ^ 0)) digits;
    }

point :
    (n e m : ℕ)
    → suc e ≤ m
    → plain_text n (suc e) m
      ≡ digits_of (n / 10 ^ suc e) ++ (b'.' ∷ frac_text (suc e) (n % 10 ^ suc e))
unfolding plain_text
point n e m h =
    let cut : min m (suc e) ≡ suc e = omega arith in
    let len =
      length-frac_text e (n % 10 ^ suc e) (mod-lt n (one-le-pow (suc e) 10 (omega arith))) in
    rw (cut, truncate_all (suc e) (frac_text (suc e) (n % 10 ^ suc e)) len)
      (with_point-dot (digits_of (n / 10 ^ suc e)) (frac_text (suc e) (n % 10 ^ suc e))
        (omega arith))

dotted-IsPlain : (i f : List ℕ) → All IsPlain i → All IsPlain f → All IsPlain (i ++ (b'.' ∷ f))
dotted-IsPlain [] f h k = ((omega arith, omega arith), k)
dotted-IsPlain (c ∷ cs) f h k = (h.0, dotted-IsPlain cs f h.1 k)

dotted-ReadsAs :
    (n e : ℕ)
    → suc e ≤ 38
    → n < 2 ^ 63
    → ReadsAs (digits_of (n / 10 ^ suc e) ++ (b'.' ∷ frac_text (suc e) (n % 10 ^ suc e))) n (suc e)
dotted-ReadsAs n e h low =
    let q = n / 10 ^ suc e in
    let r = n % 10 ^ suc e in
    let i = digits_of q in
    let f = frac_text (suc e) r in
    let i_digits = digits_of-IsDigit q in
    let f_digits : All IsDigit f =
      unfold frac_text in padded-IsDigit (suc e) (digits_of r) (digits_of-IsDigit r) in
    let len = length-frac_text e r (mod-lt n (one-le-pow (suc e) 10 (omega arith))) in
    let q_small : q ≤ n = div-le_self n (10 ^ suc e) in
    let r_small : r ≤ n = omega (arith, div_parts n (10 ^ suc e)) in
    record {
      plain = dotted-IsPlain i f (All-IsPlain i i_digits) (All-IsPlain f f_digits);
      some_text = omega (arith, length-append i (b'.' ∷ f));
      parts = rw (split_digits i f i_digits) (
          parts-exact n (suc e) i f h low i_digits f_digits len (of_digits q (omega arith))
            (unfold frac_text in value-padded (suc e) (digits_of r) ∙ of_digits r (omega arith)));
      unsigned = strip_digits i (b'.' ∷ f) (length-digits_of q) i_digits;
    }

plain_text-ReadsAs : (n d m : ℕ) → d ≤ 38 → d ≤ m → n < 2 ^ 63 → ReadsAs (plain_text n d m) n d
plain_text-ReadsAs n zero m h hm low = rw (no_point n m) (whole-ReadsAs n low)
plain_text-ReadsAs n (suc e) m h hm low = rw (point n e m hm) (dotted-ReadsAs n e h low)

read_trimmed :
    (t : List ℕ) (d : ℕ) → 0 < length t → parse_trimmed t d ≡ parse_parts (split_point t) d
unfolding parse_trimmed
read_trimmed [] d h = absurd (omega arith)
read_trimmed (c ∷ cs) d h = refl

parse_decimal-ReadsAs : (t : List ℕ) (n d : ℕ) → ReadsAs t n d → parse_decimal t d ≡ ok n
unfolding parse_decimal
parse_decimal-ReadsAs t n d r = rw (trim-plain t r.plain) (read_trimmed t d r.some_text ∙ r.parts)

format-plain_text :
    (a : ℤ) (d m : ℕ)
    → d ≤ 38
    → format_atoms a d m ≡ with_sign a (plain_text (pos_part a + neg_part a) d m)
unfolding format_atoms plain_text frac_text
format-plain_text a d m h = rw (pow10-exact d h)

small_enough : (n : ℕ) → n < 2 ^ 63 → leb n (2 ^ 63 - 1) ≡ true
small_enough n h = le→leb n (2 ^ 63 - 1) (omega arith)

read_positive :
    (t : List ℕ) (n d : ℕ) → n < 2 ^ 63 → ReadsAs t n d → parse_signed_decimal t d ≡ ok (pos n)
unfolding parse_signed_decimal
read_positive t n d h r =
    rw (trim-plain t r.plain, r.unsigned, parse_decimal-ReadsAs t n d r, small_enough n h) refl

read_negative :
    (t : List ℕ) (n d : ℕ)
    → suc n < 2 ^ 63
    → ReadsAs t (suc n) d
    → parse_signed_decimal (b'-' ∷ t) d ≡ ok (negsuc n)
unfolding parse_signed_decimal strip_minus
read_negative t n d h r =
    rw
      (
        trim-plain (b'-' ∷ t) ((omega arith, omega arith), r.plain),
        parse_decimal-ReadsAs t (suc n) d r,
        small_enough (suc n) h,
      )
      (ground arith)

-- An amount that `format_atoms` writes with all of its decimals, at most 38, is read back by
-- `parse_signed_decimal` with the same decimals, if it is an i64 other than the least one.
pub parse-format :
    (a : ℤ) (decimals max_frac : ℕ)
    → decimals ≤ 38
    → decimals ≤ max_frac
    → pos_part a + neg_part a < 2 ^ 63
    → parse_signed_decimal (format_atoms a decimals max_frac) decimals ≡ ok a
parse-format (pos n) d m h hm low =
    let e : n + 0 ≡ n = omega arith in
    rw (format-plain_text (pos n) d m h, e)
      (read_positive (plain_text n d m) n d (omega arith)
        (plain_text-ReadsAs n d m h hm (omega arith)))
parse-format (negsuc n) d m h hm low =
    let e : 0 + suc n ≡ suc n = omega arith in
    rw (format-plain_text (negsuc n) d m h, e)
      (read_negative (plain_text (suc n) d m) n d (omega arith)
        (plain_text-ReadsAs (suc n) d m h hm (omega arith)))
