-- ===== src/Strategy/Pricing/Shortfall.antt =====
-- `intermediate_shortfall_value` of crates/strategy/src/pricing.rs: what all legs but the last may
-- fall short of, in the base token.
use mobius_searcher.Base.{
  ℕ, suc, ◌+◌, ◌-◌, ◌*◌, ◌/◌, ◌^◌, ◌<◌, ◌≡◌, refl, ap, subst, ◌∙◌, none, some, List, [], ◌∷◌,
  length, get_elem?, ◌==◌, if◌then◌else◌, arith, All, IfSome, Option-cases, Bool-cases, inl, inr,
}
use mobius_searcher.Base.Int.{pos, ◌+ℤ◌, ◌*ℤ◌, quot}
use mobius_searcher.Base.Words.{u64_max, saturate, clamp_u64, wrap_i128}
use mobius_searcher.Core.Route.{Leg}
use mobius_searcher.Core.Costs.{last_leg}
use mobius_searcher.Strategy.Pricing.{to_base, sum_legs, tolerance_of, intermediate_shortfall_value}

-- What a leg may fall short of, at the rate that the rest of the route has from the next leg on, for
-- a route with a given output; nothing where the next leg takes nothing.
abbrev pub share : ℕ → Leg → Leg → ℕ
share final_out leg next =
    if next.in_amount == 0 then 0 else (leg.out_amount - leg.min_out) * final_out / next.in_amount

-- The sum over all legs but the last.
abbrev pub owed : ℕ → List Leg → ℕ
owed final_out [] = 0
owed final_out (leg ∷ []) = 0
owed final_out (leg ∷ next ∷ rest) = share final_out leg next + owed final_out (next ∷ rest)

-- The products fit an i128.
abbrev pub Narrow : ℕ → List Leg → Type 0
Narrow final_out = All (λ (l : Leg). (l.out_amount - l.min_out) * final_out < 2 ^ 127)

wrap_i128-small : (n : ℕ) → n < 2 ^ 127 → wrap_i128 (pos n) ≡ pos n
unfolding wrap_i128
wrap_i128-small n h = ground arith

pos_product : (a b : ℕ) → pos a *ℤ pos b ≡ pos (a * b)
unfolding ◌*ℤ◌
pos_product a b = ground arith

pos_sum : (a b : ℕ) → pos a +ℤ pos b ≡ pos (a + b)
unfolding ◌+ℤ◌
pos_sum a b = ground arith

module _ (legs : List Leg) (last : Leg) (at_end : last_leg legs ≡ some last) where
  -- One leg.
  to_base-share :
      (i t : ℕ) (next : Leg)
      → get_elem? legs (i + 1) ≡ some next
      → t * last.out_amount < 2 ^ 127
      → to_base legs i (pos t)
        ≡ pos (if next.in_amount == 0 then 0 else t * last.out_amount / next.in_amount)
  unfolding to_base quot
  to_base-share i t next there small =
      let w : wrap_i128 (pos t *ℤ pos last.out_amount) ≡ pos (t * last.out_amount) =
        ap wrap_i128 (pos_product t last.out_amount)
        ∙ wrap_i128-small (t * last.out_amount) small in
      rw (there, to_base)
        (rw (at_end, to_base)
          (elim (Bool-cases (next.in_amount == 0)) [ inl e ↦ rw e refl | inr e ↦ rw (e, w) refl ]))

  -- The legs from one on.
  sum_legs-owed :
      (suffix : List Leg) (i acc : ℕ)
      → ((j : ℕ) → get_elem? legs (i + j) ≡ get_elem? suffix j)
      → Narrow last.out_amount suffix
      → acc + owed last.out_amount suffix < 2 ^ 127
      → sum_legs (λ k. to_base legs k (pos (tolerance_of legs k))) i (length suffix - 1) (pos acc)
        ≡ pos (acc + owed last.out_amount suffix)
  sum_legs-owed [] i acc at_suffix narrow small = ap pos (omega arith)
  sum_legs-owed (leg ∷ []) i acc at_suffix narrow small = ap pos (omega arith)
  sum_legs-owed (leg ∷ next ∷ rest) i acc at_suffix narrow small =
      let t = leg.out_amount - leg.min_out in
      let more = owed last.out_amount (next ∷ rest) in
      let here : get_elem? legs i ≡ some leg =
        subst (λ k. get_elem? legs k ≡ some leg) (omega arith) (at_suffix 0) in
      let there : get_elem? legs (i + 1) ≡ some next = at_suffix 1 in
      let tol : tolerance_of legs i ≡ t = rw (here, tolerance_of) refl in
      let term : to_base legs i (pos (tolerance_of legs i)) ≡ pos (share last.out_amount leg next) =
        ap (λ x. to_base legs i (pos x)) tol ∙ to_base-share i t next there narrow.0 in
      let sum = acc + share last.out_amount leg next in
      let next_acc : wrap_i128 (pos acc +ℤ to_base legs i (pos (tolerance_of legs i))) ≡ pos sum =
        ap (λ x. wrap_i128 (pos acc +ℤ x)) term
        ∙ ap wrap_i128 (pos_sum acc (share last.out_amount leg next))
        ∙ wrap_i128-small sum (omega arith) in
      let on : (j : ℕ) → get_elem? legs (i + 1 + j) ≡ get_elem? (next ∷ rest) j = λ j.
        subst (λ k. get_elem? legs k ≡ get_elem? (next ∷ rest) j) (omega arith)
          (at_suffix (suc j)) in
      let ih = sum_legs-owed (next ∷ rest) (i + 1) sum on narrow.1 (omega arith) in
      let f = λ (k : ℕ). to_base legs k (pos (tolerance_of legs k)) in
      let left = length (next ∷ rest) - 1 in
      let count : suc (length (next ∷ rest)) - 1 ≡ suc left = omega arith in
      ap (λ n. sum_legs f i n (pos acc)) count
      ∙ ap (λ x. sum_legs f (i + 1) left x) next_acc
      ∙ ih
      ∙ ap pos (omega arith)

-- Where each product of a tolerance and the final output, and the sum, fit an i128, the shortfall is
-- the sum over all legs but the last of their tolerance at the rate of the rest of the route, each
-- rounded down, and cut at the top of u64.
pub shortfall-owed :
    (legs : List Leg) (last : Leg)
    → last_leg legs ≡ some last
    → Narrow last.out_amount legs
    → owed last.out_amount legs < 2 ^ 127
    → intermediate_shortfall_value legs ≡ saturate u64_max (owed last.out_amount legs)
unfolding intermediate_shortfall_value
shortfall-owed legs last at_end narrow small =
    let whole = owed last.out_amount legs in
    let e =
      sum_legs-owed legs last at_end legs 0 0 (λ j. ap (λ k. get_elem? legs k) (omega arith)) narrow
        (omega arith) in
    let z : 0 + whole ≡ whole = omega arith in ap clamp_u64 e ∙ ap (λ n. saturate u64_max n) z

-- The same of any route, by its own last leg.
abbrev pub shortfall : List Leg → ℕ
shortfall legs = elim (last_leg legs) [
  | none ↦ 0
  | some last ↦ saturate u64_max (owed last.out_amount legs)
]

abbrev pub Modest : List Leg → Type 0
Modest legs =
    IfSome (λ (last : Leg). Narrow last.out_amount legs × (owed last.out_amount legs < 2 ^ 127))
      (last_leg legs)

no_last : (legs : List Leg) → last_leg legs ≡ none → legs ≡ []
no_last [] h = refl
no_last (l ∷ []) h = cc
no_last (l ∷ k ∷ ls) h = let e = no_last (k ∷ ls) h in cc

pub shortfall-value :
    (legs : List Leg) → Modest legs → intermediate_shortfall_value legs ≡ shortfall legs
unfolding intermediate_shortfall_value
shortfall-value legs modest = elim (Option-cases (last_leg legs)) [
  | inl e ↦ rw (no_last legs e) refl
  | inr (last, e) ↦
      let (narrow, small) = rw e at modest in
      rw (e, shortfall) (shortfall-owed legs last e narrow small)
]
