-- ===== src/Strategy/Strategies/Rotation.antt =====
-- The order in which the strategies of crates/strategy/src/strategies.rs propose their plans.
use Prim.Native.String.{String}
use native.Mathlib.Nat.{mod-eq_of_lt, mod-add-mod, mul-add-mod_self_left, mod-lt}
use mobius_searcher.Base.{
  ℕ, zero, suc, ◌+◌, ◌-◌, ◌*◌, ◌%◌, ◌<◌, ◌≡◌, refl, ap, sym, ◌∙◌, Option, none, some, List, [], ◌∷◌,
  map, length, get_elem?, arith, dec_le, dec_lt,
}
use mobius_searcher.Strategy.Plan.{CandidatePlan}
use mobius_searcher.Strategy.Strategies.{
  CrossDex, AnyStrategy, round_trip, cross_dex, triangular, round_trip_plan, plan_for, pairs,
  rotate, triangular_plan, listed, plans, next_plan,
}

-- The strategy after `k` calls of `next_plan`.
abbrev pub after : ℕ → AnyStrategy → AnyStrategy
after zero s = s
after (suc k) s = after k (next_plan s).0

-- A cursor after `k` moves.
abbrev moved : ℕ → ℕ → ℕ → ℕ
moved zero n c = c
moved (suc k) n c = moved k n ((c + 1) % n)

moved_mod : (k n c : ℕ) → moved k n c % n ≡ (c + k) % n
moved_mod zero n c = ap (λ (t : ℕ). t % n) (omega arith)
moved_mod (suc k) n c =
    moved_mod k n ((c + 1) % n) ∙ (mod-add-mod (c + 1) n k ∙ ap (λ (t : ℕ). t % n) (omega arith))

-- How many moves bring the cursor to `i`.
wait : (n c i : ℕ) → i < n → (k : ℕ) × (k < n) × ((c + k) % n ≡ i)
wait n c i h = elim (dec_le (c % n) i) [
  | yes near ↦
      let back : c % n + (i - c % n) ≡ i = omega arith in
      (
        i - c % n,
        omega arith,
        sym (mod-add-mod c n (i - c % n)) ∙ (ap (λ (t : ℕ). t % n) back ∙ mod-eq_of_lt h),
      )
  | no past ↦
      let k = n + i - c % n in
      let r : c % n < n = mod-lt c (omega arith) in
      let round : c % n + k ≡ n * 1 + i = omega arith in
      (
        k,
        omega arith,
        sym (mod-add-mod c n k)
            ∙ (ap (λ (t : ℕ). t % n) round ∙ (mul-add-mod_self_left n 1 i ∙ mod-eq_of_lt h)),
      )
]

get_elem?-lt {ℓ} :
    {A : Type ℓ} (xs : List A) (i : ℕ) → i < length xs → (a : A) × (get_elem? xs i ≡ some a)
get_elem?-lt [] i h = absurd (omega arith)
get_elem?-lt (x ∷ xs) zero h = (x, refl)
get_elem?-lt (x ∷ xs) (suc i) h = get_elem?-lt xs i (omega arith)

lt-get_elem? {ℓ} :
    {A : Type ℓ} (xs : List A) (i : ℕ) {a : A} → get_elem? xs i ≡ some a → i < length xs
lt-get_elem? [] i h = absurd (ground arith)
lt-get_elem? (x ∷ xs) zero h = omega arith
lt-get_elem? (x ∷ xs) (suc i) h = omega (arith, lt-get_elem? xs i h)

length-map {ℓ κ} :
    {A : Type ℓ} {B : Type κ} (f : A → B) (xs : List A) → length (map f xs) ≡ length xs
length-map f [] = refl
length-map f (x ∷ xs) = omega (arith, length-map f xs)

get_elem?-map {ℓ κ} :
    {A : Type ℓ} {B : Type κ} (f : A → B) (xs : List A) (i : ℕ) {b : B}
    → get_elem? (map f xs) i ≡ some b
    → (a : A) × (get_elem? xs i ≡ some a) × (f a ≡ b)
get_elem?-map f [] i h = cc
get_elem?-map f (x ∷ xs) zero h = (x, refl, cc)
get_elem?-map f (x ∷ xs) (suc i) h = get_elem?-map f xs i h

map-get_elem? {ℓ κ} :
    {A : Type ℓ} {B : Type κ} (f : A → B) (xs : List A) (i : ℕ) {a : A}
    → get_elem? xs i ≡ some a
    → get_elem? (map f xs) i ≡ some (f a)
map-get_elem? f [] i h = cc
map-get_elem? f (x ∷ xs) zero h = cc
map-get_elem? f (x ∷ xs) (suc i) h = map-get_elem? f xs i h

-- The strategy with its cursor elsewhere.
abbrev at : CrossDex → ℕ → AnyStrategy
at s c = cross_dex (record s { cursor = c })

next_plan-at :
    (s : CrossDex) (c : ℕ) {p : String × String}
    → get_elem? (pairs s) (c % length (pairs s)) ≡ some p
    → next_plan (at s c) ≡ (at s ((c + 1) % length (pairs s)), some (plan_for s p))
unfolding next_plan rotate pairs plan_for
next_plan-at s c h = rw h

after-at :
    (k : ℕ) (s : CrossDex) (c : ℕ)
    → 0 < length (pairs s)
    → after k (at s c) ≡ at s (moved k (length (pairs s)) c)
after-at zero s c h = refl
after-at (suc k) s c h =
    let n = length (pairs s) in
    let (p, e) = get_elem?-lt (pairs s) (c % n) (mod-lt c h) in
    ap (λ (r : AnyStrategy × Option CandidatePlan). after k r.0) (next_plan-at s c e)
    ∙ after-at k s ((c + 1) % n) h

rotation_at :
    (s : CrossDex) (c i : ℕ) {p : String × String}
    → get_elem? (pairs s) i ≡ some p
    → (k : ℕ) × (k < length (pairs s)) × ((next_plan (after k (at s c))).1 ≡ some (plan_for s p))
rotation_at s c i e =
    let n = length (pairs s) in
    let low = lt-get_elem? (pairs s) i e in
    let (k, kn, turn) = wait n c i low in
    let many : 0 < n = omega arith in
    let there : moved k n c % n ≡ i = moved_mod k n c ∙ turn in
    let found = next_plan-at s (moved k n c) (rw there e) in
    (
      k,
      kn,
      ap (λ (s' : AnyStrategy). (next_plan s').1) (after-at k s c many)
          ∙ ap (λ (r : AnyStrategy × Option CandidatePlan). r.1) found,
    )

-- A strategy with one plan proposes it at once.
single :
    (s : AnyStrategy) (q : CandidatePlan) (i : ℕ) (p : CandidatePlan)
    → (next_plan s).1 ≡ some q
    → get_elem? (q ∷ []) i ≡ some p
    → (k : ℕ) × (k < 1) × ((next_plan (after k s)).1 ≡ some p)
single s q zero p e h = (0, omega arith, e ∙ h)
single s q (suc i) p e h = cc

listed_single :
    (s : AnyStrategy) (q : Option CandidatePlan) (i : ℕ) (p : CandidatePlan)
    → (next_plan s).1 ≡ q
    → get_elem? (listed q) i ≡ some p
    → (k : ℕ) × (k < length (listed q)) × ((next_plan (after k s)).1 ≡ some p)
listed_single s none i p e h = cc
listed_single s (some q) i p e h = single s q i p e h

-- Every plan in the list of a strategy is proposed by one of the next calls of `next_plan`, as many
-- as the list is long, whatever the state of the rotation.
pub plans-proposed :
    (s : AnyStrategy) (i : ℕ) (p : CandidatePlan)
    → get_elem? (plans s) i ≡ some p
    → (k : ℕ) × (k < length (plans s)) × ((next_plan (after k s)).1 ≡ some p)
unfolding plans
plans-proposed (round_trip s) i p h =
    single (round_trip s) (round_trip_plan s) i p (unfold next_plan in refl) h
plans-proposed (cross_dex s) i p h =
    let (q, e, f) = get_elem?-map (plan_for s) (pairs s) i h in
    let (k, kn, r) = rotation_at s s.cursor i e in
    (k, omega (arith, length-map (plan_for s) (pairs s)), rw f at r)
plans-proposed (triangular s) i p h =
    listed_single (triangular s) (triangular_plan s) i p (unfold next_plan in refl) h

no_elem {ℓ} : {A : Type ℓ} (xs : List A) (i : ℕ) → ¬ (0 < length xs) → get_elem? xs i ≡ none
no_elem [] i h = refl
no_elem (x ∷ xs) i h = absurd (h (omega arith))

-- Without a pair nothing is proposed and nothing changes.
idle : (s : CrossDex) → ¬ (0 < length (pairs s)) → next_plan (cross_dex s) ≡ (cross_dex s, none)
unfolding next_plan rotate
idle s h = rw (no_elem (pairs s) (s.cursor % length (pairs s)) h)

after-idle : (k : ℕ) (s : CrossDex) → ¬ (0 < length (pairs s)) → after k (cross_dex s) ≡ cross_dex s
after-idle zero s h = refl
after-idle (suc k) s h =
    ap (λ (r : AnyStrategy × Option CandidatePlan). after k r.0) (idle s h) ∙ after-idle k s h

-- The pair that is proposed after `k` calls.
turn_of :
    (k : ℕ) (s : CrossDex)
    → (next_plan (after k (cross_dex s))).1
      ≡ get_elem?
          (map (plan_for s) (pairs s))
          ((s.cursor + k) % length (map (plan_for s) (pairs s)))
turn_of k s =
    let f = plan_for s in
    let n = length (pairs s) in
    let c = s.cursor in
    rw (length-map f (pairs s)) (elim (dec_lt 0 n) [
      | no few ↦
          ap (λ (s' : AnyStrategy). (next_plan s').1) (after-idle k s few)
          ∙ (ap (λ (r : AnyStrategy × Option CandidatePlan). r.1) (idle s few)
              ∙ sym (
                  no_elem (map f (pairs s)) ((c + k) % n)
                    (λ h. few (omega (arith, length-map f (pairs s))))))
      | yes many ↦
          let (q, e) = get_elem?-lt (pairs s) ((c + k) % n) (mod-lt (c + k) many) in
          ap (λ (s' : AnyStrategy). (next_plan s').1) (after-at k s c many)
          ∙ (ap (λ (r : AnyStrategy × Option CandidatePlan). r.1)
                (next_plan-at s (moved k n c) (rw (moved_mod k n c) e))
              ∙ sym (map-get_elem? f (pairs s) ((c + k) % n) e))
    ])

-- One plan, or none, is its own rotation.
turn_of_one :
    (q : Option CandidatePlan) (k : ℕ) → q ≡ get_elem? (listed q) ((0 + k) % length (listed q))
turn_of_one none k = refl
turn_of_one (some p) k = let e : (0 + k) % 1 ≡ 0 = omega arith in rw e

after-fixed : (k : ℕ) (s : AnyStrategy) → (next_plan s).0 ≡ s → after k s ≡ s
after-fixed zero s e = refl
after-fixed (suc k) s e = ap (after k) e ∙ after-fixed k s e

-- Every strategy goes round its list of plans: there is a place in the list from which it proposes
-- one plan after the other, from the last one on to the first one again, and none if the list is
-- empty.
pub next_plan-round_robin :
    (s : AnyStrategy)
    → (start : ℕ) × ((k : ℕ)
        → (next_plan (after k s)).1 ≡ get_elem? (plans s) ((start + k) % length (plans s)))
unfolding plans
next_plan-round_robin (round_trip s) = (
  0,
  λ k.
      ap (λ (s' : AnyStrategy). (next_plan s').1)
        (after-fixed k (round_trip s) (unfold next_plan in refl))
      ∙ unfold next_plan in turn_of_one (some (round_trip_plan s)) k,
)
next_plan-round_robin (cross_dex s) = (s.cursor, λ k. turn_of k s)
next_plan-round_robin (triangular s) = (
  0,
  λ k.
      ap (λ (s' : AnyStrategy). (next_plan s').1)
        (after-fixed k (triangular s) (unfold next_plan in refl))
      ∙ unfold next_plan in turn_of_one (triangular_plan s) k,
)
