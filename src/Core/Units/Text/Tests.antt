-- ===== src/Core/Units/Text/Tests.antt =====
-- The texts of the tests of crates/core/src/units.rs.
use mobius_searcher.Base.{◌≡◌, refl, [], ◌∷◌, arith}
use mobius_searcher.Base.Int.{negsuc}
use mobius_searcher.Core.Units.Text.{
  ok, err, TextError, parse_decimal, parse_signed_decimal, format_atoms,
}
use mobius_searcher.Core.Units.Text.RoundTrip.{parse-format}

point_zero_one : parse_decimal (b'0' ∷ b'.' ∷ b'0' ∷ b'1' ∷ []) 9 ≡ ok 10_000_000
unfolding parse_decimal
point_zero_one = refl

no_whole : parse_decimal (b' ' ∷ b'.' ∷ b'5' ∷ []) 6 ≡ ok 500_000
unfolding parse_decimal
no_whole = refl

nothing : parse_decimal (b' ' ∷ []) 9 ≡ err TextError.empty_text
unfolding parse_decimal
nothing = refl

word : parse_decimal (b'1' ∷ b'x' ∷ []) 9 ≡ err TextError.invalid_text
unfolding parse_decimal
word = refl

fine : parse_decimal (b'0' ∷ b'.' ∷ b'1' ∷ b'2' ∷ b'3' ∷ []) 2 ≡ err TextError.too_precise
unfolding parse_decimal
fine = refl

below_zero : parse_signed_decimal (b'-' ∷ b'1' ∷ b'.' ∷ b'5' ∷ []) 6 ≡ ok (negsuc 1_499_999)
unfolding parse_signed_decimal
below_zero = refl

cut : format_atoms (negsuc 1_499_999) 6 3 ≡ b'-' ∷ b'1' ∷ b'.' ∷ b'5' ∷ b'0' ∷ b'0' ∷ []
unfolding format_atoms
cut = refl

parse-format_example :
    parse_signed_decimal (format_atoms (negsuc 1_499_999) 6 9) 6 ≡ ok (negsuc 1_499_999)
parse-format_example = parse-format (negsuc 1_499_999) 6 9 (omega arith) (omega arith) (omega arith)
