-- ===== src/Strategy/Strategies/Cycles.antt =====
-- The plans of crates/strategy/src/strategies.rs as cycles of mints, and the routes that
-- crates/strategy/src/pricing.rs accepts for them.
use Prim.Native.String.{String}
use mobius_searcher.Base.{
  ℕ, zero, suc, ◌+◌, ◌%◌, ◌≤◌, ◌<◌, ◌≡◌, refl, ap, true, Option, none, some, List, [], ◌∷◌, map,
  length, get_elem?, ltb, Bool-cases, inl, inr, arith, All, IfSome, sym, ◌∙◌,
}
use native.Mathlib.Nat.{mod_self, mod-eq_of_lt}
use mobius_searcher.Core.Route.{last_address, Address, Leg, is_closed_cycle, mint_path}
use mobius_searcher.Core.Token.{Token}
use mobius_searcher.Core.Costs.{last_leg}
use mobius_searcher.Base.Int.{pos, ◌≤ℤ◌}
use mobius_searcher.Core.Model.{OppStatus, Opportunity}
use mobius_searcher.Strategy.Pricing.{PricingInput, PricingEnv, price}
use mobius_searcher.Strategy.Pricing.Quoted.{price-Sound}
use mobius_searcher.Strategy.Plan.{LegSpec, CandidatePlan}
use mobius_searcher.Strategy.Pricing.Chain.{Carries, EndsIn, address_eq_iff}
use mobius_searcher.Strategy.Strategies.{
  RoundTrip, CrossDex, Triangular, AnyStrategy, round_trip_plan, plan_for, pairs, rotate, rotate_to,
  token_at, triangular_legs, round_trip, cross_dex, triangular, triangular_around, triangular_from,
  triangular_plan, listed, plans, next_plan,
}

-- The requests lead from the mint `a` to the mint `b`, each from where the one before ended.
abbrev pub Leads : Address → List LegSpec → Address → Type 0
Leads a [] b = a ≡ b
Leads a (s ∷ ss) b = (s.input ≡ a) × Leads s.output ss b

-- A cycle of at least two requests through the base mint.
pub record Cycle (p : CandidatePlan) : Type 0 where
  pub turns : 2 ≤ length p.legs
  pub closed : Leads p.base_mint p.legs p.base_mint

round_trip-Cycle : (s : RoundTrip) → Cycle (round_trip_plan s)
unfolding round_trip_plan
round_trip-Cycle s = record { turns = omega arith; closed = (refl, (refl, refl)) }

cross_dex-Cycle : (s : CrossDex) (p : String × String) → Cycle (plan_for s p)
unfolding plan_for
cross_dex-Cycle s p = record { turns = omega arith; closed = (refl, (refl, refl)) }

last_index : (i n : ℕ) → i + 1 ≡ n → (i + 1) % n ≡ 0
last_index i n h = rw h (mod_self n)

inner_index : (i n : ℕ) → i + 1 < n → (i + 1) % n ≡ i + 1
inner_index i n h = mod-eq_of_lt h

length-triangular_legs :
    (s : Triangular) (first : Token) (i k : ℕ) → length (triangular_legs s first i k) ≡ k
unfolding triangular_legs
length-triangular_legs s first i zero = refl
length-triangular_legs s first i (suc k) = omega (arith, length-triangular_legs s first (i + 1) k)

-- The legs from an index to the end lead from its token to the first one.
triangular-Leads :
    (s : Triangular) (first : Token) (i k : ℕ)
    → i + suc k ≡ length s.cycle
    → Leads
        (token_at first s.cycle i).mint
        (triangular_legs s first i (suc k))
        (token_at first s.cycle 0).mint
unfolding triangular_legs
triangular-Leads s first i zero h = (
  refl,
  ap (λ (j : ℕ). (token_at first s.cycle j).mint) (last_index i (length s.cycle) (omega arith)),
)
triangular-Leads s first i (suc k) h = (
  refl,
  rw (inner_index i (length s.cycle) (omega arith))
      (triangular-Leads s first (i + 1) k (omega arith)),
)

triangular_all-Leads :
    (s : Triangular) (first : Token) (n : ℕ)
    → n ≡ length s.cycle
    → 0 < n
    → Leads
        (token_at first s.cycle 0).mint
        (triangular_legs s first 0 n)
        (token_at first s.cycle 0).mint
triangular_all-Leads s first zero e h = absurd (omega arith)
triangular_all-Leads s first (suc k) e h = triangular-Leads s first 0 k (omega arith)

triangular_around-Cycle :
    (s : Triangular) (first : Token) (rest : List Token)
    → s.cycle ≡ first ∷ rest
    → 3 ≤ length s.cycle
    → Cycle (triangular_around s first)
unfolding triangular_around
triangular_around-Cycle s first rest e h =
    let n = length s.cycle in
    let back : token_at first s.cycle 0 ≡ first = rw e in
    let go = triangular_all-Leads s first n refl (omega arith) in
    record { turns = omega (arith, length-triangular_legs s first 0 n); closed = rw back at go }

triangular_from-Cycle :
    (s : Triangular) (c : List Token) → s.cycle ≡ c → IfSome Cycle (triangular_from s c)
unfolding triangular_from
triangular_from-Cycle s [] e = tt
triangular_from-Cycle s (first ∷ rest) e = elim (Bool-cases (ltb (length s.cycle) 3)) [
  | inl short ↦ rw short tt
  | inr long ↦ rw long (triangular_around-Cycle s first rest e (ground arith))
]

triangular-Cycle : (s : Triangular) → IfSome Cycle (triangular_plan s)
unfolding triangular_plan
triangular-Cycle s = triangular_from-Cycle s s.cycle refl

rotate_to-Cycle :
    (s : CrossDex) (n : ℕ) (p : Option (String × String)) → IfSome Cycle (rotate_to s n p).1
rotate_to-Cycle s n none = tt
rotate_to-Cycle s n (some p) = cross_dex-Cycle s p

rotate-Cycle : (s : CrossDex) → IfSome Cycle (rotate s).1
unfolding rotate
rotate-Cycle s =
    rotate_to-Cycle s (length (pairs s)) (get_elem? (pairs s) (s.cursor % length (pairs s)))

-- Every plan that a strategy proposes, or lists, is a cycle.
proposed-Cycle : (s : AnyStrategy) → IfSome Cycle (next_plan s).1
unfolding next_plan
proposed-Cycle (round_trip s) = round_trip-Cycle s
proposed-Cycle (cross_dex s) = rotate-Cycle s
proposed-Cycle (triangular s) = triangular-Cycle s

map-Cycle : (s : CrossDex) (ps : List (String × String)) → All Cycle (map (plan_for s) ps)
map-Cycle s [] = tt
map-Cycle s (p ∷ ps) = (cross_dex-Cycle s p, map-Cycle s ps)

listed-Cycle : (p : Option CandidatePlan) → IfSome Cycle p → All Cycle (listed p)
listed-Cycle none h = tt
listed-Cycle (some p) h = (h, tt)

plans-Cycle : (s : AnyStrategy) → All Cycle (plans s)
unfolding plans
plans-Cycle (round_trip s) = (round_trip-Cycle s, tt)
plans-Cycle (cross_dex s) = map-Cycle s (pairs s)
plans-Cycle (triangular s) = listed-Cycle (triangular_plan s) (triangular-Cycle s)

-- Every plan that a strategy proposes next, and every plan of its list, is a cycle of at least two
-- requests: the first starts from the base mint, each other one from where the one before ended,
-- and the last ends in the base mint.
pub strategies-Cycle : (s : AnyStrategy) → IfSome Cycle (next_plan s).1 × All Cycle (plans s)
strategies-Cycle s = (proposed-Cycle s, plans-Cycle s)

outputs_end :
    (b : Address) (l : Leg) (ls : List Leg)
    → EndsIn b (last_leg (l ∷ ls))
    → last_address l.output_mint (map (λ (x : Leg). x.output_mint) ls) ≡ b
outputs_end b l [] h = h
outputs_end b l (k ∷ ls) h = outputs_end b k ls h

first_mint :
    (a amount_in : Address) (n : ℕ) (l : Leg) (ls : List Leg) (ss : List LegSpec)
    → Leads a ss amount_in
    → Carries n (l ∷ ls) ss
    → l.input_mint ≡ a
first_mint a b n l ls [] h c = absurd c
first_mint a b n l ls (s ∷ ss) h c = c.0.1 ∙ h.0

-- Legs that carry an amount along a cycle of requests are a closed route.
pub Carries-closed :
    (base : Address) (n : ℕ) (legs : List Leg) (ss : List LegSpec)
    → Leads base ss base
    → Carries n legs ss
    → EndsIn base (last_leg legs)
    → is_closed_cycle (record { legs = legs }) ≡ true
unfolding is_closed_cycle mint_path
Carries-closed base n [] ss h c e = absurd e
Carries-closed base n (l ∷ ls) ss h c e =
    (address_eq_iff _ _).1 (first_mint base base n l ls ss h c ∙ sym (outputs_end base l ls e))

proposed-closed : (s : AnyStrategy) (p : CandidatePlan) → (next_plan s).1 ≡ some p → Cycle p
proposed-closed s p e = let c = proposed-Cycle s in rw e at c

-- With a minimum profit that is not negative, what `price` leaves as quoted for the plan that a
-- strategy proposed is a route that `is_closed_cycle` accepts.
pub quoted-is_closed :
    (s : AnyStrategy) (inp : PricingInput) (env : PricingEnv) (o : Opportunity)
    → pos 0 ≤ℤ env.guards.min_profit_lamports
    → (next_plan s).1 ≡ some inp.plan
    → price inp env ≡ some o
    → o.status ≡ OppStatus.quoted
    → is_closed_cycle o.route ≡ true
quoted-is_closed s inp env o m plan e st =
    let sound = price-Sound inp env o m e st in
    let c = proposed-closed s inp.plan plan in
    let base = sound.asked.0 in
    Carries-closed o.base_mint o.input o.route.legs inp.plan.legs (rw base c.closed) sound.carried
      sound.closed
