-- ===== src/Core/Units/Text.antt =====
-- crates/core/src/units.rs: `parse_decimal`, `parse_signed_decimal` and `format_atoms`. A text is the
-- list of its code points. The texts of the errors are constructors. A power of ten wraps at u128.
pub mod Digits
pub mod RoundTrip
mod Tests
use mobius_searcher.Base.{
  ℕ, zero, suc, ◌+◌, ◌-◌, ◌*◌, ◌/◌, ◌%◌, ◌^◌, Bool, true, false, ◌&&◌, ◌||◌, not, Option, none,
  some, List, [], ◌∷◌, ◌++◌, length, replicate, ltb, leb, ◌==◌, if◌then◌else◌, ◌>>=◌, min,
}
use mobius_searcher.Base.Int.{ℤ, pos, negsuc, pos_part, neg_part, neg_ℤ}
use mobius_searcher.Base.Words.{u64_max, u128_max, fits}

pub data TextError : Type 0 where
  empty_text invalid_text too_precise too_long overflows overflows_u64 overflows_i64 : TextError

pub data Parsed (A : Type 0) : Type 0 where
  ok : A → Parsed A
  err : TextError → Parsed A

-- `char::is_whitespace`
pub is_space : ℕ → Bool
is_space c =
    (leb 9 c && leb c 13)
    || (c == 32
        || (c == 133
            || (c == 160
                || (c == 5_760
                    || ((leb 8_192 c && leb c 8_202)
                        || (c == 8_232
                            || (c == 8_233 || (c == 8_239 || (c == 8_287 || c == 12_288)))))))))

pub trim_start : List ℕ → List ℕ
trim_start [] = []
trim_start (c ∷ cs) = let rest = trim_start cs in if is_space c then rest else c ∷ cs

abbrev keep_end : ℕ → List ℕ → List ℕ
keep_end c [] = if is_space c then [] else c ∷ []
keep_end c (d ∷ ds) = c ∷ d ∷ ds

pub trim_end : List ℕ → List ℕ
trim_end [] = []
trim_end (c ∷ cs) = keep_end c (trim_end cs)

-- `str::trim`
unfoldable pub trim : List ℕ → List ℕ
unfolding trim_start trim_end is_space
trim s = trim_end (trim_start s)

abbrev add_front : ℕ → List ℕ × List ℕ → List ℕ × List ℕ
add_front c (i, f) = (c ∷ i, f)

-- `s.split_once('.')`, or the whole text and no fraction.
pub split_point : List ℕ → List ℕ × List ℕ
split_point [] = ([], [])
split_point (c ∷ cs) = if c == b'.' then ([], cs) else add_front c (split_point cs)

abbrev pub is_digit : ℕ → Bool
is_digit c = leb b'0' c && leb c b'9'

pub all_digits : List ℕ → Bool
all_digits [] = true
all_digits (c ∷ cs) = is_digit c && all_digits cs

pub value_from : ℕ → List ℕ → ℕ
value_from acc [] = acc
value_from acc (c ∷ cs) = value_from (acc * 10 + (c - b'0')) cs

-- `parse` of a text of digits as u128, and 0 for no digits.
pub number : List ℕ → Option ℕ
unfolding value_from
number cs = fits u128_max (value_from 0 cs)

pub pow10 : ℕ → ℕ
pow10 d = 10 ^ d % 2 ^ 128

abbrev pub as_u64 : Option ℕ → Parsed ℕ
as_u64 none = err overflows
as_u64 (some v) = if leb v u64_max then ok v else err overflows_u64

-- The value of the digits before and after the point.
pub combine : ℕ → ℕ → Option ℕ → Option ℕ → Parsed ℕ
unfolding pow10
combine decimals places none f = err too_long
combine decimals places (some i) none = err too_long
combine decimals places (some i) (some f) = as_u64 (do
  whole ← fits u128_max (i * pow10 decimals)
  fits u128_max (whole + f * pow10 (decimals - places) % 2 ^ 128))

pub parse_parts : List ℕ × List ℕ → ℕ → Parsed ℕ
unfolding all_digits number combine
parse_parts (i, f) decimals =
    if not (all_digits i) || not (all_digits f)
    then err invalid_text
    else if ltb decimals (length f)
    then err too_precise
    else combine decimals (length f) (number i) (number f)

pub parse_trimmed : List ℕ → ℕ → Parsed ℕ
unfolding split_point parse_parts
parse_trimmed [] decimals = err empty_text
parse_trimmed (c ∷ cs) decimals = parse_parts (split_point (c ∷ cs)) decimals

unfoldable pub parse_decimal : List ℕ → ℕ → Parsed ℕ
unfolding trim parse_trimmed
parse_decimal s decimals = parse_trimmed (trim s) decimals

abbrev pub signed : Bool → Parsed ℕ → Parsed ℤ
signed neg (err e) = err e
signed neg (ok v) =
    if leb v (2 ^ 63 - 1) then ok (if neg then neg_ℤ (pos v) else pos v) else err overflows_i64

pub strip_minus : List ℕ → Bool × List ℕ
strip_minus [] = (false, [])
strip_minus (c ∷ cs) = if c == b'-' then (true, cs) else (false, c ∷ cs)

unfoldable pub parse_signed_decimal : List ℕ → ℕ → Parsed ℤ
unfolding strip_minus parse_decimal
parse_signed_decimal s decimals =
    let (neg, body) = strip_minus (trim s) in signed neg (parse_decimal body decimals)

-- The decimal digits of a number of at most `k` digits, as `format!` writes them.
pub digits_within : ℕ → ℕ → List ℕ
digits_within zero n = []
digits_within (suc k) n =
    let longer = digits_within k (n / 10) ++ ((n % 10 + b'0') ∷ []) in
    if ltb n 10 then (n + b'0') ∷ [] else longer

-- A u128 has 39 digits at most.
pub digits_of : ℕ → List ℕ
unfolding digits_within
digits_of n = digits_within 39 n

-- `{:0width$}`
pub padded : ℕ → List ℕ → List ℕ
padded width ds = replicate (width - length ds) b'0' ++ ds

pub truncate : ℕ → List ℕ → List ℕ
truncate zero cs = []
truncate (suc k) [] = []
truncate (suc k) (c ∷ cs) = c ∷ truncate k cs

abbrev pub with_point : List ℕ → List ℕ → List ℕ
with_point i [] = i
with_point i (c ∷ cs) = i ++ (b'.' ∷ c ∷ cs)

abbrev pub with_sign : ℤ → List ℕ → List ℕ
with_sign (pos n) s = s
with_sign (negsuc n) s = b'-' ∷ s

unfoldable pub format_atoms : ℤ → ℕ → ℕ → List ℕ
unfolding digits_of padded truncate pow10
format_atoms atoms decimals max_frac =
    let a = pos_part atoms + neg_part atoms in
    let scale = pow10 decimals in
    let frac = truncate (min max_frac decimals) (padded decimals (digits_of (a % scale))) in
    with_sign atoms (with_point (digits_of (a / scale)) frac)
