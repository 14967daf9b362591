-- ===== src/Strategy/Strategies.antt =====
-- crates/strategy/src/strategies.rs: the three strategies, each a rotation through its cycles. The
-- trait objects of the scheduler are the data type `AnyStrategy`.
pub mod Cycles
pub mod Rotation
mod Tests
use Prim.Native.String.{String, ◌++◌}
use text.Mathlib.Text.{◌==◌ as str_eq}
use mobius_searcher.Base.{
  ℕ, zero, suc, ◌+◌, ◌%◌, Bool, true, false, ◌||◌, Option, none, some, List, [], ◌∷◌, map, length,
  get_elem?, ltb, ◌≡◌, refl, arith, if◌then◌else◌,
}
use mobius_searcher.Base.Decimal.{decimal}
use mobius_searcher.Core.Route.{RoutingMode, DexFilter}
use mobius_searcher.Core.Token.{Token}
use mobius_searcher.Core.Model.{StrategyKind}
use mobius_searcher.Strategy.Plan.{LegSpec, CandidatePlan}
use mobius_searcher.Strategy.Scheduler.{Strategy}

abbrev any_pair : String → String → List String → Bool
any_pair p1 p2 [] = false
any_pair p1 p2 (p ∷ ps) = (str_eq p p1 || str_eq p p2) || any_pair p1 p2 ps

-- `FastPairs::mode`
unfoldable pub mode : List String → Token → Token → RoutingMode
mode fast a b =
    if any_pair (a.symbol ++ ("/" ++ b.symbol)) (b.symbol ++ ("/" ++ a.symbol)) fast
    then RoutingMode.fast
    else RoutingMode.normal

pub record RoundTrip : Type 0 where
  pub base : Token
  pub quote : Token
  pub amount : ℕ
  pub weight : ℕ
  pub fast : List String
  pub max_accounts : Option ℕ

-- `RoundTrip::plan`
unfoldable pub round_trip_plan : RoundTrip → CandidatePlan
round_trip_plan s =
    let way = mode s.fast s.base s.quote in
    record {
      strategy = StrategyKind.round_trip;
      key = "rt:" ++ (s.base.symbol ++ (":" ++ (s.quote.symbol ++ (":" ++ decimal s.amount))));
      label = s.base.symbol ++ ("→" ++ (s.quote.symbol ++ ("→" ++ s.base.symbol)));
      base_mint = s.base.mint;
      amount = s.amount;
      legs =
          record {
            input = s.base.mint;
            output = s.quote.mint;
            dex_filter = DexFilter.any;
            mode = way;
            max_accounts = s.max_accounts;
          }
          ∷ record {
            input = s.quote.mint;
            output = s.base.mint;
            dex_filter = DexFilter.any;
            mode = way;
            max_accounts = s.max_accounts;
          }
          ∷ [];
    }

pub record CrossDex : Type 0 where
  pub base : Token
  pub quote : Token
  pub amount : ℕ
  pub weight : ℕ
  pub dexes : List String
  pub fast : List String
  pub max_accounts : Option ℕ
  pub cursor : ℕ

-- `CrossDex::new`
unfoldable pub new : Token → Token → ℕ → ℕ → List String → List String → Option ℕ → CrossDex
new base quote amount weight dexes fast max_accounts = record {
  base = base;
  quote = quote;
  amount = amount;
  weight = weight;
  dexes = dexes;
  fast = fast;
  max_accounts = max_accounts;
  cursor = 0;
}

-- The pairs of `a` with each other exchange, before the pairs `rest`.
pub pairs_with : String → List String → List (String × String) → List (String × String)
pairs_with a [] rest = rest
pairs_with a (b ∷ bs) rest =
    let others = pairs_with a bs rest in if str_eq a b then others else (a, b) ∷ others

pub pairs_of : List String → List String → List (String × String)
pairs_of dexes [] = []
pairs_of dexes (a ∷ as') = pairs_with a dexes (pairs_of dexes as')

-- `CrossDex::pairs`
unfoldable pub pairs : CrossDex → List (String × String)
unfolding pairs_with pairs_of
pairs s = pairs_of s.dexes s.dexes

-- `CrossDex::plan_for`
unfoldable pub plan_for : CrossDex → String × String → CandidatePlan
plan_for s (a, b) =
    let way = mode s.fast s.base s.quote in
    record {
      strategy = StrategyKind.cross_dex;
      key =
          "xd:"
          ++ (s.base.symbol
              ++ (":"
                  ++ (s.quote.symbol
                      ++ (":" ++ (a ++ (">" ++ (b ++ (":" ++ decimal s.amount))))))));
      label = a ++ (" → " ++ b);
      base_mint = s.base.mint;
      amount = s.amount;
      legs =
          record {
            input = s.base.mint;
            output = s.quote.mint;
            dex_filter = DexFilter.only (a ∷ []);
            mode = way;
            max_accounts = s.max_accounts;
          }
          ∷ record {
            input = s.quote.mint;
            output = s.base.mint;
            dex_filter = DexFilter.only (b ∷ []);
            mode = way;
            max_accounts = s.max_accounts;
          }
          ∷ [];
    }

abbrev pub rotate_to : CrossDex → ℕ → Option (String × String) → CrossDex × Option CandidatePlan
rotate_to s n none = (s, none)
rotate_to s n (some p) = (record s { cursor = (s.cursor + 1) % n }, some (plan_for s p))

-- `CrossDex::next_plan`: the pair at the cursor, which moves on.
unfoldable pub rotate : CrossDex → CrossDex × Option CandidatePlan
rotate s = let n = length (pairs s) in rotate_to s n (get_elem? (pairs s) (s.cursor % n))

pub record Triangular : Type 0 where
  pub cycle : List Token
  pub amount : ℕ
  pub weight : ℕ
  pub fast : List String
  pub max_accounts : Option ℕ

-- The token at an index of the cycle; the default stands for an index out of range, which there is
-- not.
abbrev pub token_at : Token → List Token → ℕ → Token
token_at a cycle i = elim (get_elem? cycle i) [ none ↦ a | some t ↦ t ]

abbrev pub triangular_leg : Triangular → Token → ℕ → LegSpec
triangular_leg s first i =
    let a = token_at first s.cycle i in
    let b = token_at first s.cycle ((i + 1) % length s.cycle) in
    record {
      input = a.mint;
      output = b.mint;
      dex_filter = DexFilter.any;
      mode = mode s.fast a b;
      max_accounts = s.max_accounts;
    }

-- The legs from index `i` on, `k` of them.
pub triangular_legs : Triangular → Token → ℕ → ℕ → List LegSpec
triangular_legs s first i zero = []
triangular_legs s first i (suc k) = triangular_leg s first i ∷ triangular_legs s first (i + 1) k

-- `Triangular::label`: the symbols and the first one again, joined by arrows.
pub cycle_label : String → List Token → String
cycle_label first [] = first
cycle_label first (t ∷ ts) = t.symbol ++ ("→" ++ cycle_label first ts)

-- The plan around the cycle from its first token.
pub triangular_around : Triangular → Token → CandidatePlan
unfolding triangular_legs cycle_label
triangular_around s first =
    let label = cycle_label first.symbol s.cycle in
    record {
      strategy = StrategyKind.triangular;
      key = "tri:" ++ (label ++ (":" ++ decimal s.amount));
      label = label;
      base_mint = first.mint;
      amount = s.amount;
      legs = triangular_legs s first 0 (length s.cycle);
    }

pub triangular_from : Triangular → List Token → Option CandidatePlan
triangular_from s [] = none
triangular_from s (first ∷ rest) =
    if ltb (length s.cycle) 3 then none else some (triangular_around s first)

-- `Triangular::plan`
unfoldable pub triangular_plan : Triangular → Option CandidatePlan
unfolding triangular_around triangular_from
triangular_plan s = triangular_from s s.cycle

pub data AnyStrategy : Type 0 where
  round_trip : RoundTrip → AnyStrategy
  cross_dex : CrossDex → AnyStrategy
  triangular : Triangular → AnyStrategy

abbrev pub listed : Option CandidatePlan → List CandidatePlan
listed none = []
listed (some p) = p ∷ []

-- `weight`, `next_plan` and `plans` of the trait.
unfoldable pub weight : AnyStrategy → ℕ
weight (round_trip s) = s.weight
weight (cross_dex s) = s.weight
weight (triangular s) = s.weight

unfoldable pub next_plan : AnyStrategy → AnyStrategy × Option CandidatePlan
next_plan (round_trip s) = (round_trip s, some (round_trip_plan s))
next_plan (cross_dex s) = let (s', p) = rotate s in (cross_dex s', p)
next_plan (triangular s) = (triangular s, triangular_plan s)

unfoldable pub plans : AnyStrategy → List CandidatePlan
plans (round_trip s) = round_trip_plan s ∷ []
plans (cross_dex s) = map (plan_for s) (pairs s)
plans (triangular s) = listed (triangular_plan s)

pub next_plan-weight : (s : AnyStrategy) → weight (next_plan s).0 ≡ weight s
unfolding weight next_plan rotate
next_plan-weight (round_trip s) = refl
next_plan-weight (cross_dex s) = ground arith
next_plan-weight (triangular s) = refl

-- The trait, as the scheduler asks for it.
abbrev pub strategies : Strategy AnyStrategy CandidatePlan
strategies = record { weight = weight; next_plan = next_plan; steady = next_plan-weight }
