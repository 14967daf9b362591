-- ===== src/Strategy/Scheduler/Shares.antt =====
-- Sequences of calls of the scheduler, scheduler.rs, and how often each strategy is chosen in them.
use mobius_searcher.Base.{
  ℕ, zero, suc, ◌+◌, ◌*◌, ◌≤◌, ◌≡◌, refl, sym, ap, ◌∙◌, Option, some, List, [], ◌∷◌, ltb, ◌==◌,
  if◌then◌else◌, arith, length, get_elem?, All, ◌⊎◌, inl, inr, Bool-cases,
}
use mobius_searcher.Base.Int.{
  ℤ, pos, pos_part, neg_part, ◌+ℤ◌, ◌-ℤ◌, ◌≤ℤ◌, ◌<ℤ◌, ltb_ℤ, leb_ℤ, int_laws,
}
use mobius_searcher.Strategy.Scheduler.{
  Strategy, Entry, new, total, raised, best_from, best, charge, next_plan,
}

module _ {S P : Type 0} (ops : Strategy S P) where
  -- The entry at `i`, with every other one at most as large.
  abbrev Largest : List (Entry S) → ℕ → Type 0
  Largest es i =
      (e : Entry S) × (get_elem? es i ≡ some e) × All (λ (x : Entry S). x.current ≤ℤ e.current) es

  abbrev AtMost : ℤ → List (Entry S) → Type 0
  AtMost c = All (λ (x : Entry S). x.current ≤ℤ c)

  AtMost-more : (c d : ℤ) (es : List (Entry S)) → c ≤ℤ d → AtMost c es → AtMost d es
  AtMost-more c d [] h a = tt
  AtMost-more c d (e ∷ es) h (x, a) = (omega arith, AtMost-more c d es h a)

  -- The search keeps its best, or finds a larger one further on.
  abbrev Found : ℕ → ℤ → ℕ → List (Entry S) → ℕ → Type 0
  Found b c i es j =
      ((j ≡ b) × AtMost c es)
      ⊎ ((m : ℕ) × (e : Entry S) × (j ≡ m + i)
          × (get_elem? es m ≡ some e)
          × (c ≤ℤ e.current)
          × AtMost e.current es)

  best_from-Found :
      (b : ℕ) (c : ℤ) (i : ℕ) (es : List (Entry S)) → Found b c i es (best_from ops b c i es)
  best_from-Found b c i [] = inl (refl, tt)
  best_from-Found b c i (e ∷ es) = elim (Bool-cases (ltb_ℤ c e.current)) [
    | inl more ↦ rw more (elim (best_from-Found i e.current (suc i) es) [
      | inl (at, a) ↦ inr (0, e, omega (arith, at), refl, ground arith, (omega arith, a))
      | inr (m, x, at, get, le, a) ↦ inr (suc m, x, omega (arith, at), get, ground arith, (le, a))
    ])
    | inr less ↦ rw less (elim (best_from-Found b c (suc i) es) [
      | inl (at, a) ↦ inl (at, (ground arith, a))
      | inr (m, x, at, get, le, a) ↦ inr (suc m, x, omega (arith, at), get, le, (ground arith, a))
    ])
  ]

  there :
      (e x : Entry S) (m j : ℕ) (es : List (Entry S))
      → j ≡ suc m
      → get_elem? es m ≡ some x
      → get_elem? (e ∷ es) j ≡ some x
  there e x m j es at get = rw at get

  no_entry {ℓ} : {A : Type ℓ} (i : ℕ) (x : Entry S) → get_elem? [] i ≡ some x → A
  no_entry i x get = absurd (ground arith)

  best-Largest : (e : Entry S) (es : List (Entry S)) → Largest (e ∷ es) (best ops (e ∷ es))
  best-Largest e es = elim (best_from-Found 0 e.current 1 es) [
    | inl (at, a) ↦ (e, rw at refl, (omega arith, a))
    | inr (m, x, at, get, le, a) ↦
        (x, there e x m (best ops (e ∷ es)) es (omega (arith, at)) get, (le, a))
  ]

  -- Equality of integers, by their parts.
  abbrev Same : ℤ → ℤ → Type 0
  Same a b = pos_part a + neg_part b ≡ pos_part b + neg_part a

  abbrev pub sum : List (Entry S) → ℤ
  sum [] = pos 0
  sum (e ∷ es) = e.current +ℤ sum es

  -- No strategy owes more than the total.
  abbrev Solvent : ℕ → List (Entry S) → Type 0
  Solvent t = All (λ (x : Entry S). pos 0 ≤ℤ x.current +ℤ pos t)

  sum-raised : (es : List (Entry S)) → Same (sum (raised ops es)) (sum es +ℤ pos (total ops es))
  sum-raised [] = omega int_laws
  sum-raised (e ∷ es) = omega (int_laws, sum-raised es)

  Solvent-raised : (t : ℕ) (es : List (Entry S)) → Solvent t es → Solvent t (raised ops es)
  Solvent-raised t [] h = tt
  Solvent-raised t (e ∷ es) (x, h) = (omega int_laws, Solvent-raised t es h)

  total-raised : (es : List (Entry S)) → total ops (raised ops es) ≡ total ops es
  total-raised [] = refl
  total-raised (e ∷ es) = ap (λ (n : ℕ). ops.weight e.strategy + n) (total-raised es)

  length-raised : (es : List (Entry S)) → length (raised ops es) ≡ length es
  length-raised [] = refl
  length-raised (e ∷ es) = ap suc (length-raised es)

  total-charge : (i t : ℕ) (es : List (Entry S)) → total ops (charge ops i t es).0 ≡ total ops es
  total-charge zero t [] = refl
  total-charge (suc i) t [] = refl
  total-charge zero t (e ∷ es) = ap (λ (n : ℕ). n + total ops es) (ops.steady e.strategy)
  total-charge (suc i) t (e ∷ es) = ap (λ (n : ℕ). ops.weight e.strategy + n) (total-charge i t es)

  length-charge : (i t : ℕ) (es : List (Entry S)) → length (charge ops i t es).0 ≡ length es
  length-charge zero t [] = refl
  length-charge (suc i) t [] = refl
  length-charge zero t (e ∷ es) = refl
  length-charge (suc i) t (e ∷ es) = ap suc (length-charge i t es)

  sum-charge :
      (i t : ℕ) (es : List (Entry S)) (x : Entry S)
      → get_elem? es i ≡ some x
      → Same (sum (charge ops i t es).0 +ℤ pos t) (sum es)
  sum-charge i t [] x get = no_entry i x get
  sum-charge zero t (e ∷ es) x get = omega int_laws
  sum-charge (suc i) t (e ∷ es) x get = omega (int_laws, sum-charge i t es x get)

  Solvent-charge :
      (i t : ℕ) (es : List (Entry S)) (x : Entry S)
      → get_elem? es i ≡ some x
      → pos 0 ≤ℤ x.current
      → Solvent t es
      → Solvent t (charge ops i t es).0
  Solvent-charge i t [] x get p h = no_entry i x get
  Solvent-charge zero t (e ∷ es) x get p (y, h) =
      (let q : pos 0 ≤ℤ e.current = ground arith in omega int_laws, h)
  Solvent-charge (suc i) t (e ∷ es) x get p (y, h) = (y, Solvent-charge i t es x get p h)

  -- If none is positive, the sum is not.
  sum_low : (c : ℤ) (es : List (Entry S)) → c ≤ℤ pos 0 → AtMost c es → sum es ≤ℤ pos 0
  sum_low c [] h a = omega arith
  sum_low c (e ∷ es) h (x, a) = omega (int_laws, sum_low c es h a)

  sum_positive :
      (c : ℤ) (e : Entry S) (es : List (Entry S)) (t : ℕ)
      → Same (sum (e ∷ es)) (pos t)
      → AtMost c (e ∷ es)
      → pos 0 ≤ℤ c
  sum_positive c e es t z (x, a) = elim (Bool-cases (leb_ℤ (pos 0) c)) [
    | inl fine ↦ ground arith
    | inr negative ↦
        let low : c <ℤ pos 0 = ground arith in
        absurd (omega (int_laws, sum_low c es (omega arith) a))
  ]

  -- What holds between calls.
  abbrev Balanced : ℕ → List (Entry S) → Type 0
  Balanced t es = Same (sum es) (pos 0) × Solvent t es × (total ops es ≡ t)

  next_plan-Balanced :
      (t : ℕ) (es : List (Entry S)) → Balanced t es → Balanced t (next_plan ops es).0
  unfolding next_plan
  next_plan-Balanced t [] b = b
  next_plan-Balanced t (e ∷ es) (z, h, w) =
      let r = raised ops (e ∷ es) in
      let (x, get, a) =
        best-Largest (record e { current = e.current +ℤ pos (ops.weight e.strategy) })
          (raised ops es) in
      let s : Same (sum r) (pos t) = omega (int_laws, sum-raised (e ∷ es)) in
      let p =
        sum_positive x.current (record e { current = e.current +ℤ pos (ops.weight e.strategy) })
          (raised ops es) t s a in
      (
        rw w (omega (int_laws, sum-charge (best ops r) t r x get)),
        rw w (Solvent-charge (best ops r) t r x get p (Solvent-raised t (e ∷ es) h)),
        omega (arith, total-charge (best ops r) (total ops (e ∷ es)) r, total-raised (e ∷ es)),
      )

  length-next_plan : (es : List (Entry S)) → length (next_plan ops es).0 ≡ length es
  unfolding next_plan
  length-next_plan [] = refl
  length-next_plan (e ∷ es) =
      length-charge (best ops (raised ops (e ∷ es))) (total ops (e ∷ es)) (raised ops (e ∷ es))
      ∙ length-raised (e ∷ es)

  -- How an entry fares in one call.
  abbrev once : ℕ → ℕ → ℕ
  once j i = if j == i then 1 else 0

  once-suc : (j i : ℕ) → once (suc j) (suc i) ≡ once j i
  once-suc j i = ground arith

  once-far : (i : ℕ) → once 0 (suc i) ≡ 0
  once-far i = ground arith

  once-near : (j : ℕ) → once (suc j) 0 ≡ 0
  once-near j = ground arith

  abbrev Fares : ℕ → ℕ → Entry S → Option (Entry S) → Type 0
  Fares paid gain e after =
      (e' : Entry S) × (after ≡ some e')
      × (ops.weight e'.strategy ≡ ops.weight e.strategy)
      × Same (e'.current +ℤ pos paid) (e.current +ℤ pos gain)

  raised-Fares :
      (i : ℕ) (es : List (Entry S)) (e : Entry S)
      → get_elem? es i ≡ some e
      → Fares 0 (ops.weight e.strategy) e (get_elem? (raised ops es) i)
  raised-Fares i [] e get = no_entry i e get
  raised-Fares zero (x ∷ es) e get = (
    record x { current = x.current +ℤ pos (ops.weight x.strategy) },
    refl,
    (let q : x ≡ e = ground arith in ap (λ (y : Entry S). ops.weight y.strategy) q),
    (let q : x ≡ e = ground arith in rw q (omega int_laws)),
  )
  raised-Fares (suc i) (x ∷ es) e get = raised-Fares i es e get

  charge-Fares :
      (j i t : ℕ) (es : List (Entry S)) (e : Entry S)
      → get_elem? es i ≡ some e
      → Fares (once j i * t) 0 e (get_elem? (charge ops j t es).0 i)
  charge-Fares j i t [] e get = no_entry i e get
  charge-Fares zero zero t (x ∷ es) e get = (
    record x { strategy = (ops.next_plan x.strategy).0; current = x.current -ℤ pos t },
    refl,
    (let q : x ≡ e = ground arith in
        ops.steady x.strategy ∙ ap (λ (y : Entry S). ops.weight y.strategy) q),
    (let q : x ≡ e = ground arith in rw q (omega int_laws)),
  )
  charge-Fares zero (suc i) t (x ∷ es) e get = (e, get, refl, rw (once-far i) (omega int_laws))
  charge-Fares (suc j) zero t (x ∷ es) e get = (e, get, refl, rw (once-near j) (omega int_laws))
  charge-Fares (suc j) (suc i) t (x ∷ es) e get = rw (once-suc j i) (charge-Fares j i t es e get)

  next_plan-Fares :
      (i : ℕ) (es : List (Entry S)) (e : Entry S)
      → get_elem? es i ≡ some e
      → Fares
          (once (best ops (raised ops es)) i * total ops es)
          (ops.weight e.strategy)
          e
          (get_elem? (next_plan ops es).0 i)
  unfolding next_plan
  next_plan-Fares i [] e get = no_entry i e get
  next_plan-Fares i (x ∷ es) e get =
      let (e1, g1, w1, c1) = raised-Fares i (x ∷ es) e get in
      let (e2, g2, w2, c2) =
        charge-Fares (best ops (raised ops (x ∷ es))) i (total ops (x ∷ es)) (raised ops (x ∷ es))
          e1 g1 in
      (e2, g2, w2 ∙ w1, omega int_laws)

  -- The state after some calls of `next_plan`, and how often the strategy at `i` was chosen in them.
  abbrev pub calls : ℕ → List (Entry S) → List (Entry S)
  calls zero es = es
  calls (suc k) es = calls k (next_plan ops es).0

  abbrev pub picks : ℕ → ℕ → List (Entry S) → ℕ
  picks i zero es = 0
  picks i (suc k) es = once (best ops (raised ops es)) i + picks i k (next_plan ops es).0

  split : (a b t : ℕ) → (a + b) * t ≡ a * t + b * t
  split a b t = grind arith

  calls-Fares :
      (k i t : ℕ) (es : List (Entry S)) (e : Entry S)
      → Balanced t es
      → get_elem? es i ≡ some e
      → Fares (picks i k es * t) (k * ops.weight e.strategy) e (get_elem? (calls k es) i)
  calls-Fares zero i t es e b get = (e, get, refl, omega int_laws)
  calls-Fares (suc k) i t es e b get =
      let (e1, g1, w1, c1) = next_plan-Fares i es e get in
      let (e2, g2, w2, c2) =
        calls-Fares k i t (next_plan ops es).0 e1 (next_plan-Balanced t es b) g1 in
      let (_, _, w) = b in
      let c1' = rw w at c1 in
      let c2' = rw w1 at c2 in
      (
        e2,
        g2,
        w2 ∙ w1,
        omega (
          int_laws,
          split (once (best ops (raised ops es)) i) (picks i k (next_plan ops es).0) t,
          split k 1 (ops.weight e.strategy),
        ),
      )

  calls-Balanced : (k t : ℕ) (es : List (Entry S)) → Balanced t es → Balanced t (calls k es)
  calls-Balanced zero t es b = b
  calls-Balanced (suc k) t es b =
      calls-Balanced k t (next_plan ops es).0 (next_plan-Balanced t es b)

  length-calls : (k : ℕ) (es : List (Entry S)) → length (calls k es) ≡ length es
  length-calls zero es = refl
  length-calls (suc k) es = length-calls k (next_plan ops es).0 ∙ length-next_plan es

  sum_above : (t : ℕ) (es : List (Entry S)) → Solvent t es → pos 0 ≤ℤ sum es +ℤ pos (length es * t)
  sum_above t [] h = omega int_laws
  sum_above t (e ∷ es) (x, h) = omega (int_laws, sum_above t es h, split (length es) 1 t)

  -- A current is within what the others owe.
  entry_bounds :
      (t i : ℕ) (es : List (Entry S)) (e : Entry S)
      → Solvent t es
      → get_elem? es i ≡ some e
      → (pos 0 ≤ℤ e.current +ℤ pos t) × (e.current ≤ℤ sum es +ℤ pos (length es * t))
  entry_bounds t i [] e h get = no_entry i e get
  entry_bounds t zero (y ∷ es) e (x, h) get =
      let q : y ≡ e = ground arith in
      let high : y.current ≤ℤ sum (y ∷ es) +ℤ pos (length (y ∷ es) * t) =
        omega (int_laws, sum_above t es h, split (length es) 1 t) in
      (rw (sym q) x, rw (sym q) high)
  entry_bounds t (suc i) (y ∷ es) e (x, h) get =
      let (low, high) = entry_bounds t i es e h get in
      (low, omega (int_laws, split (length es) 1 t))

  abbrev Fresh : List (Entry S) → Type 0
  Fresh = All (λ (x : Entry S). x.current ≡ pos 0)

  new-Fresh : (ss : List S) → Fresh (new ops ss)
  unfolding new
  new-Fresh [] = tt
  new-Fresh (s ∷ ss) = elim (Bool-cases (ltb 0 (ops.weight s))) [
    | inl used ↦ rw used (refl, new-Fresh ss)
    | inr unused ↦ rw unused (new-Fresh ss)
  ]

  Fresh-Balanced : (t : ℕ) (es : List (Entry S)) → Fresh es → Same (sum es) (pos 0) × Solvent t es
  Fresh-Balanced t [] f = (refl, tt)
  Fresh-Balanced t (e ∷ es) (z, f) =
      let (s, h) = Fresh-Balanced t es f in (rw z (omega int_laws), (rw z (omega int_laws), h))

  Fresh-current :
      (i : ℕ) (es : List (Entry S)) (e : Entry S)
      → Fresh es
      → get_elem? es i ≡ some e
      → e.current ≡ pos 0
  Fresh-current i [] e f get = no_entry i e get
  Fresh-current zero (x ∷ es) e (z, f) get =
      let q : x ≡ e = ground arith in ap (λ (y : Entry S). y.current) (sym q) ∙ z
  Fresh-current (suc i) (x ∷ es) e (z, f) get = Fresh-current i es e f get

  -- After any number of calls on a new scheduler, the times that a strategy was chosen, each
  -- counted at the sum of the weights, are ahead of the calls counted at its weight by at most one
  -- choice, and behind by at most one choice for each strategy.
  pub fair_shares :
      (ss : List S) (k i : ℕ) (e : Entry S)
      → get_elem? (new ops ss) i ≡ some e
      → let all = new ops ss in
        (picks i k all * total ops all ≤ k * ops.weight e.strategy + total ops all)
        × (k * ops.weight e.strategy ≤ picks i k all * total ops all + length all * total ops all)
  fair_shares ss k i e get =
      let t = total ops (new ops ss) in
      let (z, h) = Fresh-Balanced t (new ops ss) (new-Fresh ss) in
      let b : Balanced t (new ops ss) = (z, h, refl) in
      let (e', g, w, c) = calls-Fares k i t (new ops ss) e b get in
      let (z', h', _) = calls-Balanced k t (new ops ss) b in
      let (low, high) = entry_bounds t i (calls k (new ops ss)) e' h' g in
      let high' = rw (length-calls k (new ops ss)) at high in
      let start = Fresh-current i (new ops ss) e (new-Fresh ss) get in
      let c' = rw start at c in (omega int_laws, omega int_laws)
