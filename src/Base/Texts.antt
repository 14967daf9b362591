-- ===== src/Base/Texts.antt =====
-- Texts as the list of their code points, and the searches in them.
use Prim.Native.Char.{code}
use Prim.Native.String.{String}
use mobius_searcher.Base.{
  ℕ, Bool, true, false, Option, none, some, List, [], ◌∷◌, ◌==◌, if◌then◌else◌,
}

abbrev pub codes : String → List ℕ
codes String.[] = []
codes (String.◌∷◌ c s) = code c ∷ codes s

-- `s.strip_prefix(p)`, the prefix first.
unfoldable pub strip_prefix : List ℕ → List ℕ → Option (List ℕ)
strip_prefix [] s = some s
strip_prefix (p ∷ ps) [] = none
strip_prefix (p ∷ ps) (c ∷ cs) = let rest = strip_prefix ps cs in if p == c then rest else none

abbrev pub starts_with : List ℕ → List ℕ → Bool
starts_with p s = elim (strip_prefix p s) [ none ↦ false | some rest ↦ true ]

-- `s.contains(p)`, the part first.
unfoldable pub contains : List ℕ → List ℕ → Bool
unfolding strip_prefix
contains p [] = starts_with p []
contains p (c ∷ cs) = let rest = contains p cs in if starts_with p (c ∷ cs) then true else rest
