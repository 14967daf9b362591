-- ===== src/Market/Amm/Math/Search.antt =====
-- The binary search of `tick_at_sqrt_price`, amm/math.rs, over any table of prices.
use native.Mathlib.Nat.{pow-suc}
use mobius_searcher.Base.{
  ℕ, zero, suc, ◌+◌, ◌-◌, ◌/◌, ◌^◌, ◌<◌, ◌≤◌, ◌≡◌, refl, Option, some, arith, leb, inl, inr,
  Bool-cases, subst, sym, leb→le, ◌⊎◌, false,
}
use mobius_searcher.Base.Int.{ℤ, pos, pos_part, neg_part, ◌+ℤ◌, ◌-ℤ◌, ◌≤ℤ◌, ltb_ℤ, quot, int_laws}
use mobius_searcher.Market.Amm.Math.{tick_search}

abbrev pub middle : ℤ → ℤ → ℤ
middle lo hi = lo +ℤ quot (hi -ℤ lo +ℤ pos 1) (pos 2)

-- `hi` is `lo + w`.
abbrev pub Apart : ℤ → ℤ → ℕ → Type 0
Apart lo hi w = pos_part hi + neg_part lo ≡ w + (pos_part lo + neg_part hi)

middle_lem : (lo hi : ℤ) (w : ℕ) → Apart lo hi w → middle lo hi ≡ lo +ℤ pos ((w + 1) / 2)
unfolding quot
middle_lem lo hi w a = let e : hi -ℤ lo +ℤ pos 1 ≡ pos (w + 1) = omega int_laws in rw e (refl)

-- Either half of the range has at most half of the width, rounded down.
halving_gap :
    (lo hi : ℤ) (w : ℕ)
    → Apart lo hi w
    → 0 < w
    → Apart (middle lo hi) hi (w / 2) × Apart lo (middle lo hi -ℤ pos 1) ((w - 1) / 2)
halving_gap lo hi w a h = rw (middle_lem lo hi w a) (omega int_laws, omega int_laws)

module _ (price : ℤ → Option ℕ) (s : ℕ) where
  -- The price at `t` is at most `s`, and `t` is the last tick or the next price is above `s`.
  abbrev pub AtMost : ℤ → Type 0
  AtMost t = (p : ℕ) × (price t ≡ some p) × (p ≤ s)

  abbrev pub Above : ℤ → Type 0
  Above t = (p : ℕ) × (price t ≡ some p) × (s < p)

  abbrev pub Crosses : ℤ → ℤ → Type 0
  Crosses last t = AtMost t × ((t ≡ last) ⊎ Above (t +ℤ pos 1))

  abbrev pub Total : ℤ → ℤ → Type 0
  Total lo hi = (t : ℤ) → lo ≤ℤ t → t ≤ℤ hi → (p : ℕ) × (price t ≡ some p)

  -- The answer in terms of the range that is left.
  abbrev pub Answer : ℤ → ℤ → ℤ → Option (Option ℤ) → Type 0
  Answer last lo hi r = (t : ℤ) × (r ≡ some (some t)) × (lo ≤ℤ t) × (t ≤ℤ hi) × Crosses last t

  one_left :
      (last lo hi : ℤ)
      → Apart lo hi 0
      → AtMost lo
      → (hi ≡ last) ⊎ Above (hi +ℤ pos 1)
      → Answer last lo hi (some (some lo))
  one_left last lo hi a below above =
      let e : hi ≡ lo = omega int_laws in
      (
        lo,
        refl,
        omega arith,
        omega arith,
        (below, subst (λ t. (t ≡ last) ⊎ Above (t +ℤ pos 1)) e above),
      )

  back_up : (t : ℤ) → t -ℤ pos 1 +ℤ pos 1 ≡ t
  back_up t = omega int_laws

  -- The search keeps both ends, and halves the width in each round.
  pub search_crosses :
      (last : ℤ) (fuel : ℕ) (lo hi : ℤ) (w : ℕ)
      → Total lo hi
      → Apart lo hi w
      → w < 2 ^ fuel
      → AtMost lo
      → (hi ≡ last) ⊎ Above (hi +ℤ pos 1)
      → Answer last lo hi (tick_search price s fuel lo hi)
  unfolding tick_search
  search_crosses last zero lo hi w total a h below above =
      let e : ltb_ℤ lo hi ≡ false = ground arith in
      rw e (one_left last lo hi (omega arith) below above)
  search_crosses last (suc fuel) lo hi w total a h below above = elim (Bool-cases (ltb_ℤ lo hi)) [
    | inr closed ↦ rw closed (one_left last lo hi (ground arith) below above)
    | inl open_range ↦
        let mid = middle lo hi in
        let b = halving_gap lo hi w a (ground arith) in
        let (p, ep) = total mid (omega arith) (omega arith) in
        elim (Bool-cases (leb p s)) [
          | inl low ↦
              let (t, e, l, u, c) =
                search_crosses last fuel mid hi (w / 2) (λ t l u. total t (omega arith) u) b.0
                  (omega (arith, pow-suc 2 fuel)) (p, ep, leb→le p s low) above in
              rw (open_range, ep, low) (t, e, omega arith, u, c)
          | inr high ↦
              let up : Above (mid -ℤ pos 1 +ℤ pos 1) =
                (p, subst (λ t. price t ≡ some p) (sym (back_up mid)) ep, ground arith) in
              let (t, e, l, u, c) =
                search_crosses last fuel lo (mid -ℤ pos 1) ((w - 1) / 2)
                  (λ t l u. total t l (omega int_laws)) b.1 (omega (arith, pow-suc 2 fuel)) below
                  (inr up) in
              rw (open_range, ep, high) (t, e, l, omega int_laws, c)
        ]
  ]
