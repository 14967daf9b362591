-- ===== src/Base/Decimal.antt =====
-- The decimal text of a number, as `format!` writes it.
use Prim.Native.String.{String, ◌++◌}
use mobius_searcher.Base.{
  ℕ, zero, suc, ◌/◌, ◌%◌, none, some, List, [], ◌∷◌, get_elem?, ltb, if◌then◌else◌,
}

abbrev digits : List String
digits = "0" ∷ "1" ∷ "2" ∷ "3" ∷ "4" ∷ "5" ∷ "6" ∷ "7" ∷ "8" ∷ "9" ∷ []

digit : ℕ → String
digit d = elim (get_elem? digits d) [ none ↦ "" | some s ↦ s ]

-- The first argument is the number of digits at most.
decimal_within : ℕ → ℕ → String
unfolding digit
decimal_within zero n = ""
decimal_within (suc k) n =
    let longer = decimal_within k (n / 10) ++ digit (n % 10) in if ltb n 10 then digit n else longer

-- A u64 has 20 digits at most.
unfoldable pub decimal : ℕ → String
unfolding decimal_within
decimal n = decimal_within 20 n
