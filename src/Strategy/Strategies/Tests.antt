-- ===== src/Strategy/Strategies/Tests.antt =====
-- The strategies on the exchanges of their own tests.
use Prim.Native.String.{String}
use mobius_searcher.Base.{
  ℕ, ◌<◌, ◌+◌, ◌%◌, ◌≡◌, refl, true, false, some, none, List, [], ◌∷◌, length, get_elem?, All,
  IfSome,
}
use mobius_searcher.Base.Decimal.{decimal}
use mobius_searcher.Core.Token.{Token}
use mobius_searcher.Strategy.Strategies.{
  CrossDex, AnyStrategy, cross_dex, triangular, new, pairs, plan_for, plans, next_plan,
  triangular_plan, rotate,
}
use mobius_searcher.Strategy.Strategies.Cycles.{Cycle, strategies-Cycle}
use mobius_searcher.Strategy.Strategies.Rotation.{after, plans-proposed, next_plan-round_robin}

abbrev sol : Token
sol = record { symbol = "SOL"; mint = 1 ∷ []; decimals = 9; usd_stable = false }

abbrev usdc : Token
usdc = record { symbol = "USDC"; mint = 2 ∷ []; decimals = 6; usd_stable = true }

abbrev jup : Token
jup = record { symbol = "JUP"; mint = 3 ∷ []; decimals = 6; usd_stable = false }

abbrev exchanges : List String
exchanges = "Raydium CLMM" ∷ "Whirlpool" ∷ "Meteora DLMM" ∷ []

abbrev crossing : CrossDex
crossing = new sol usdc 5 3 exchanges ("SOL/USDC" ∷ []) none

six_pairs : length (pairs crossing) ≡ 6
unfolding pairs new
six_pairs = refl

wraps_around :
    IfSome (λ p. p.label ≡ "Raydium CLMM → Whirlpool") (next_plan (after 6 (cross_dex crossing))).1
unfolding next_plan rotate pairs new plan_for
wraps_around = refl

around : AnyStrategy
around = triangular (record {
  cycle = sol ∷ usdc ∷ jup ∷ [];
  amount = 10_250;
  weight = 1;
  fast = [];
  max_accounts = none;
})

label_around :
    IfSome
      (λ p. (p.label ≡ "SOL→USDC→JUP→SOL") × (p.key ≡ "tri:SOL→USDC→JUP→SOL:10250"))
      (next_plan around).1
unfolding around next_plan triangular_plan decimal
label_around = (refl, refl)

strategies-Cycle_example : IfSome Cycle (next_plan around).1 × All Cycle (plans around)
strategies-Cycle_example = strategies-Cycle around

plans-proposed_example :
    (k : ℕ) × (k < length (plans (cross_dex crossing)))
    × ((next_plan (after k (cross_dex crossing))).1
        ≡ some (plan_for crossing ("Meteora DLMM", "Whirlpool")))
unfolding plans
plans-proposed_example =
    plans-proposed (cross_dex crossing) 5 (plan_for crossing ("Meteora DLMM", "Whirlpool"))
      (unfold pairs new in refl)

next_plan-round_robin_example :
    (start : ℕ) × ((k : ℕ)
      → (next_plan (after k (cross_dex crossing))).1
        ≡ get_elem?
            (plans (cross_dex crossing))
            ((start + k) % length (plans (cross_dex crossing))))
next_plan-round_robin_example = next_plan-round_robin (cross_dex crossing)
