-- ===== src/Strategy/Pricing/Chain.antt =====
-- `validate_chain` of crates/strategy/src/pricing.rs against the chain of amounts and mints that it
-- looks for.
use mobius_searcher.Base.{
  ℕ, ◌+◌, ◌≡◌, ◌↔◌, refl, true, Option, none, some, List, [], ◌∷◌, length, arith,
}
use mobius_searcher.Core.Route.{Leg, Address, address_eq}
use mobius_searcher.Core.Costs.{last_leg}
use mobius_searcher.Strategy.Plan.{LegSpec, CandidatePlan}
use mobius_searcher.Strategy.Pricing.{check_legs, closes_on, validate_chain}

pub address_eq_iff : (a b : Address) → (address_eq a b ≡ true) ↔ (a ≡ b)
address_eq_iff [] [] = (λ h. refl, λ h. refl)
address_eq_iff [] (b ∷ bs) = (λ h. cc, λ h. cc)
address_eq_iff (a ∷ as') [] = (λ h. cc, λ h. cc)
address_eq_iff (a ∷ as') (b ∷ bs) =
    let ih = address_eq_iff as' bs in
    (
      λ h. let e : as' ≡ bs = ih.0 (ground arith) in ground arith,
      λ h. let e : address_eq as' bs ≡ true = ih.1 (cc) in ground arith,
    )

-- The legs carry `amount` through the requests: each spends all that the one before returned, in
-- the mints of its request.
abbrev pub Carries : ℕ → List Leg → List LegSpec → Type 0
Carries amount [] [] = Unit
Carries amount [] (s ∷ ss) = ⊥
Carries amount (l ∷ ls) [] = ⊥
Carries amount (l ∷ ls) (s ∷ ss) =
    ((l.in_amount ≡ amount) × (l.input_mint ≡ s.input) × (l.output_mint ≡ s.output))
    × Carries l.out_amount ls ss

abbrev pub EndsIn : Address → Option Leg → Type 0
EndsIn base none = ⊥
EndsIn base (some l) = l.output_mint ≡ base

-- One round of the loop, at the leg before.
leg_round :
    (i o : ℕ) (l : Leg) (ls : List Leg) (s : LegSpec) (ss : List LegSpec)
    → (check_legs i (some o) (l ∷ ls) (s ∷ ss) ≡ none) ↔ (
        ((l.in_amount ≡ o) × (l.input_mint ≡ s.input) × (l.output_mint ≡ s.output))
        × (check_legs (i + 1) (some l.out_amount) ls ss ≡ none))
unfolding check_legs
leg_round i o l ls s ss =
    let a = address_eq_iff l.input_mint s.input in
    let b = address_eq_iff l.output_mint s.output in
    (
      λ h. ((ground arith, a.0 (ground arith), b.0 (ground arith)), ground arith),
      λ h. ground (arith, a.1 h.0.1, b.1 h.0.2),
    )

check_legs-Carries :
    (i o : ℕ) (ls : List Leg) (ss : List LegSpec)
    → length ls ≡ length ss
    → (check_legs i (some o) ls ss ≡ none) ↔ Carries o ls ss
check_legs-Carries i o [] [] e = (λ h. tt, λ h. unfold check_legs in refl)
check_legs-Carries i o [] (s ∷ ss) e = absurd (omega arith)
check_legs-Carries i o (l ∷ ls) [] e = absurd (omega arith)
check_legs-Carries i o (l ∷ ls) (s ∷ ss) e =
    let r = leg_round i o l ls s ss in
    let ih = check_legs-Carries (i + 1) l.out_amount ls ss (omega arith) in
    (λ h. ((r.0 h).0, ih.0 (r.0 h).1), λ h. r.1 (h.0, ih.1 h.1))

-- The first leg has no leg before: its amount is tested on its own.
first_round :
    (amount : ℕ) (l : Leg) (ls : List Leg) (ss : List LegSpec)
    → l.in_amount ≡ amount
    → check_legs 0 none (l ∷ ls) ss ≡ check_legs 0 (some amount) (l ∷ ls) ss
unfolding check_legs
first_round amount l ls [] h = refl
first_round amount l ls (s ∷ ss) h = ground arith

length-Carries :
    (o : ℕ) (ls : List Leg) (ss : List LegSpec) → Carries o ls ss → length ls ≡ length ss
length-Carries o [] [] h = refl
length-Carries o [] (s ∷ ss) h = absurd h
length-Carries o (l ∷ ls) [] h = absurd h
length-Carries o (l ∷ ls) (s ∷ ss) h = omega (arith, length-Carries l.out_amount ls ss h.1)

closes-EndsIn : (base : Address) (l : Option Leg) → (closes_on base l ≡ true) ↔ EndsIn base l
closes-EndsIn base none = (λ h. absurd (ground arith), λ h. absurd h)
closes-EndsIn base (some l) = address_eq_iff l.output_mint base

first_amount :
    (amount : ℕ) (l : Leg) (ls : List Leg) (ss : List LegSpec)
    → Carries amount (l ∷ ls) ss
    → l.in_amount ≡ amount
first_amount amount l ls [] h = absurd h
first_amount amount l ls (s ∷ ss) h = h.0.0

-- `validate_chain` accepts exactly the legs that carry the amount of the plan through its requests,
-- each leg spending all of what the one before returned, and that end in the base mint.
pub validate_chain-Carries :
    (plan : CandidatePlan) (legs : List Leg)
    → (validate_chain plan legs ≡ none)
      ↔ (Carries plan.amount legs plan.legs × EndsIn plan.base_mint (last_leg legs))
unfolding validate_chain
validate_chain-Carries plan [] = (λ h. absurd (ground arith), λ h. absurd h.1)
validate_chain-Carries plan (l ∷ ls) =
    let c = closes-EndsIn plan.base_mint (last_leg (l ∷ ls)) in
    (
      λ h.
          let n : length (l ∷ ls) ≡ length plan.legs = ground arith in
          let a : l.in_amount ≡ plan.amount = ground arith in
          let k : check_legs 0 none (l ∷ ls) plan.legs ≡ none = ground arith in
          let e : closes_on plan.base_mint (last_leg (l ∷ ls)) ≡ true = ground arith in
          (
            (check_legs-Carries 0 plan.amount (l ∷ ls) plan.legs n).0
                (rw (← first_round plan.amount l ls plan.legs a) k),
            c.0 e,
          ),
      λ h.
          let n = length-Carries plan.amount (l ∷ ls) plan.legs h.0 in
          let a = first_amount plan.amount l ls plan.legs h.0 in
          let k = (check_legs-Carries 0 plan.amount (l ∷ ls) plan.legs n).1 h.0 in
          let e = c.1 h.1 in ground (arith, first_round plan.amount l ls plan.legs a),
    )
