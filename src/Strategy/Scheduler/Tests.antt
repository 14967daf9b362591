-- ===== src/Strategy/Scheduler/Tests.antt =====
-- The scheduler on the weights of its own test.
use mobius_searcher.Base.{ℕ, ◌+◌, ◌*◌, ◌≤◌, ◌≡◌, refl, some, List, [], ◌∷◌, length}
use mobius_searcher.Base.Int.{pos, ◌+ℤ◌, ◌-ℤ◌}
use mobius_searcher.Strategy.Scheduler.{Strategy, Entry, new, total, next_plan}
use mobius_searcher.Strategy.Scheduler.Shares.{picks, fair_shares}

-- A strategy that is its weight and plans it.
abbrev fixed : Strategy ℕ ℕ
fixed = record { weight = λ w. w; next_plan = λ w. (w, some w); steady = λ w. refl }

abbrev weights : List ℕ
weights = 1 ∷ 3 ∷ 1 ∷ 0 ∷ []

abbrev entries : List (Entry ℕ)
entries =
    record { strategy = 1; current = pos 0 }
    ∷ record { strategy = 3; current = pos 0 }
    ∷ record { strategy = 1; current = pos 0 }
    ∷ []

disabled : new fixed weights ≡ entries
unfolding new
disabled = refl

full_period : picks fixed 1 10 entries ≡ 6
unfolding next_plan ◌+ℤ◌ ◌-ℤ◌
full_period = refl

fair_shares_example :
    (picks fixed 1 7 (new fixed weights) * total fixed (new fixed weights)
      ≤ 7 * 3 + total fixed (new fixed weights))
    × (7 * 3
        ≤ picks fixed 1 7 (new fixed weights) * total fixed (new fixed weights)
          + length (new fixed weights) * total fixed (new fixed weights))
unfolding new
fair_shares_example = fair_shares fixed weights 7 1 (record { strategy = 3; current = pos 0 }) refl
