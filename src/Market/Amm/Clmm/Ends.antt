-- ===== src/Market/Amm/Clmm/Ends.antt =====
-- The termination of the loop of `Clmm::swap`, amm/clmm.rs.
use mobius_searcher.Base.{
  ℕ, zero, suc, ◌+◌, ◌≤◌, ◌<◌, ◌≡◌, refl, subst, ◌∙◌, Bool, true, false, Option, none, some, List,
  [], ◌∷◌, length, ltb, leb, ◌==◌, ◌!=◌, if◌then◌else◌, arith, ◌⊎◌, inl, inr, Bool-cases,
  Option-cases, ◌>>=◌, guard,
}
use mobius_searcher.Base.Int.{ℤ, pos, ◌-ℤ◌, ◌≤ℤ◌, ◌<ℤ◌, leb_ℤ, ltb_ℤ, int_laws, neg_ℤ}
use mobius_searcher.Base.Words.{fits_i128}
use mobius_searcher.Market.Amm.Math.{sqrt_price_at_tick}
use mobius_searcher.Market.Amm.Clmm.{
  Tick, Clmm, Swap, State, Round, stops, continues, last_at_most, first_above, next_tick, target_of,
  tick_after, cross, round, swap_loop, start, swap, step, finish, wrapping_add, checked_add_signed,
}

-- How many ticks are still ahead.
abbrev ahead : Bool → ℤ → List Tick → ℕ
ahead a_to_b tick [] = 0
ahead true tick (t ∷ ts) = (if leb_ℤ t.index tick then 1 else 0) + ahead true tick ts
ahead false tick (t ∷ ts) = (if ltb_ℤ tick t.index then 1 else 0) + ahead false tick ts

ahead-length : (d : Bool) (tick : ℤ) (ts : List Tick) → ahead d tick ts ≤ length ts
ahead-length d tick [] = omega arith
ahead-length true tick (t ∷ ts) = ground (arith, ahead-length true tick ts)
ahead-length false tick (t ∷ ts) = ground (arith, ahead-length false tick ts)

-- Moving on leaves no more ahead.
ahead_down :
    (tick tick' : ℤ) (ts : List Tick) → tick' ≤ℤ tick → ahead true tick' ts ≤ ahead true tick ts
ahead_down tick tick' [] h = omega arith
ahead_down tick tick' (t ∷ ts) h = ground (arith, ahead_down tick tick' ts h)

ahead_up :
    (tick tick' : ℤ) (ts : List Tick) → tick ≤ℤ tick' → ahead false tick' ts ≤ ahead false tick ts
ahead_up tick tick' [] h = omega arith
ahead_up tick tick' (t ∷ ts) h = ground (arith, ahead_up tick tick' ts h)

last_within :
    (tick : ℤ) (ts : List Tick) (t : Tick) → last_at_most tick ts ≡ some t → t.index ≤ℤ tick
unfolding last_at_most
last_within tick [] t h = absurd (ground arith)
last_within tick (u ∷ ts) t h = elim (Option-cases (last_at_most tick ts)) [
  | inr (v, e) ↦ last_within tick ts t (e ∙ rw e at h)
  | inl e ↦ let h' = rw e at h in ground arith
]

crossed_down :
    (tick : ℤ) (ts : List Tick) (t : Tick)
    → last_at_most tick ts ≡ some t
    → ahead true (t.index -ℤ pos 1) ts < ahead true tick ts
unfolding last_at_most
crossed_down tick [] t h = absurd (ground arith)
crossed_down tick (u ∷ ts) t h =
    let w : t.index ≤ℤ tick = unfold last_at_most in last_within tick (u ∷ ts) t h in
    let lower : t.index -ℤ pos 1 ≤ℤ tick = omega int_laws in
    elim (Option-cases (last_at_most tick ts)) [
      | inr (v, e) ↦ ground (arith, crossed_down tick ts t (e ∙ rw e at h))
      | inl e ↦
          let h' = rw e at h in
          let q : u ≡ t = ground arith in
          let a = ahead_down tick (t.index -ℤ pos 1) ts lower in
          let g : t.index -ℤ pos 1 <ℤ t.index = omega int_laws in rw q (ground (arith, a))
    ]

met_up :
    (tick : ℤ) (u : Tick) (ts : List Tick)
    → tick <ℤ u.index
    → ahead false u.index (u ∷ ts) < ahead false tick (u ∷ ts)
met_up tick u ts lt = let a = ahead_up tick u.index ts (omega arith) in ground (arith, a)

crossed_up :
    (tick : ℤ) (ts : List Tick) (t : Tick)
    → first_above tick ts ≡ some t
    → (tick <ℤ t.index) × (ahead false t.index ts < ahead false tick ts)
unfolding first_above
crossed_up tick [] t h = absurd (ground arith)
crossed_up tick (u ∷ ts) t h = elim (Bool-cases (ltb_ℤ tick u.index)) [
  | inl here ↦
      let h' = rw here at h in
      let q : u ≡ t = ground arith in
      let lt : tick <ℤ u.index = ground arith in
      subst
        (λ (x : Tick).
          (tick <ℤ x.index) × (ahead false x.index (u ∷ ts) < ahead false tick (u ∷ ts)))
        q (lt, met_up tick u ts lt)
  | inr there ↦ let (lt, less) = crossed_up tick ts t (rw there at h) in (lt, ground arith)
]

-- A pass that goes on has less ahead of it, or nothing left to sell.
Onward : Clmm → Bool → State → Option Round → Type 0
Onward p d s (some (continues s')) =
    (ahead d s'.tick p.ticks < ahead d s.tick p.ticks) ⊎ (s'.remaining ≡ 0)
Onward p d s _ = Unit

bind-Onward {ℓ} :
    {A : Type ℓ} (p : Clmm) (d : Bool) (s : State) (m : Option A) (f : A → Option Round)
    → ((a : A) → Onward p d s (f a))
    → Onward p d s (m >>= f)
unfolding Onward
bind-Onward p d s none f h = tt
bind-Onward p d s (some a) f h = h a

crossed :
    (p : Clmm) (d : Bool) (tick : ℤ) (t : Tick)
    → next_tick p d tick ≡ some t
    → ahead d (tick_after d t.index) p.ticks < ahead d tick p.ticks
crossed p true tick t h = crossed_down tick p.ticks t h
crossed p false tick t h = (crossed_up tick p.ticks t h).1

cross-Onward :
    (p : Clmm) (d : Bool) (s s' : State) (next : Option Tick)
    → next_tick p d s.tick ≡ next
    → Onward p d s (cross d next (target_of p d next) s')
unfolding Onward cross
cross-Onward p d s s' none e = elim (Bool-cases (ltb 0 s'.remaining)) [
  | inl more ↦ rw more tt
  | inr spent ↦ rw spent (inr (ground arith))
]
cross-Onward p d s s' (some t) e =
    bind-Onward p d s (if d then fits_i128 (neg_ℤ t.liquidity_net) else some t.liquidity_net) _
      (λ net.
        bind-Onward p d s (checked_add_signed s'.liquidity net) _
          (λ liquidity. inl (crossed p d s.tick t e)))

stop_or-Onward :
    (p : Clmm) (d : Bool) (s s' : State) (b : Bool) (r : Option Round)
    → Onward p d s r
    → Onward p d s (if b then some (stops s') else r)
unfolding Onward
stop_or-Onward p d s s' true r h = tt
stop_or-Onward p d s s' false r h = h

round-Onward : (p : Clmm) (d : Bool) (s : State) → Onward p d s (round p d s)
unfolding round
round-Onward p d s =
    let next = next_tick p d s.tick in
    bind-Onward p d s (sqrt_price_at_tick (target_of p d next)) _ (λ target.
      bind-Onward p d s (step s.sqrt_price target s.liquidity s.remaining p.fee_ppm d) _ (λ st.
        bind-Onward p d s (guard (leb (wrapping_add st.amount_in st.fee) s.remaining)) _ (λ _.
          stop_or-Onward p d s _ (st.sqrt_price != target) _ (cross-Onward p d s _ next refl))))

Round-cases :
    (r : Option Round)
    → (r ≡ none) ⊎ ((s : State) × ((r ≡ some (stops s)) ⊎ (r ≡ some (continues s))))
Round-cases none = inl refl
Round-cases (some (stops s)) = inr (s, inl refl)
Round-cases (some (continues s)) = inr (s, inr refl)

Onward-fuel :
    (p : Clmm) (d : Bool) (s s' : State) (fuel : ℕ)
    → Onward p d s (some (continues s'))
    → ahead d s.tick p.ticks < suc fuel
    → (s'.remaining ≡ 0) ⊎ (ahead d s'.tick p.ticks < fuel)
unfolding Onward
Onward-fuel p d s s' fuel (inl less) h = inr (omega arith)
Onward-fuel p d s s' fuel (inr spent) h = inl spent

-- Fuel for the ticks ahead and one pass more is enough.
loop_ends :
    (p : Clmm) (d : Bool) (fuel : ℕ) (s : State)
    → (s.remaining ≡ 0) ⊎ (ahead d s.tick p.ticks < fuel)
    → (r : Option State) × (swap_loop p d fuel s ≡ some r)
unfolding swap_loop
loop_ends p d zero s h = elim (Bool-cases (s.remaining == 0)) [
  | inl spent ↦ rw spent (some s, refl)
  | inr more ↦ absurd (ground arith)
]
loop_ends p d (suc fuel) s h = elim (Bool-cases (s.remaining == 0)) [
  | inl spent ↦ rw spent (some s, refl)
  | inr more ↦ elim (Round-cases (round p d s)) [
    | inl e ↦ rw (more, e) (none, refl)
    | inr (s', inl e) ↦ rw (more, e) (some s', refl)
    | inr (s', inr e) ↦
        let r = round-Onward p d s in
        let o = rw e at r in
        rw (more, e) (loop_ends p d fuel s' (Onward-fuel p d s s' fuel o (ground arith)))
  ]
]

-- Selling into a pool ends, whatever its ticks and their order: one pass for each tick and one at
-- the edge are enough, and the answer is a swap or that it is not known.
pub swap_ends :
    (p : Clmm) (a_to_b : Bool) (amount_in : ℕ)
    → (r : Option Swap) × (swap p a_to_b amount_in ≡ some r)
unfolding swap
swap_ends p d amount_in =
    let (r, e) =
      loop_ends p d (length p.ticks + 1) (start p amount_in)
        (inr (omega (arith, ahead-length d p.tick p.ticks))) in
    rw (e, swap) (finish r, refl)
