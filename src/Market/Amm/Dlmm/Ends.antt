-- ===== src/Market/Amm/Dlmm/Ends.antt =====
-- The loop of `Dlmm::swap` and its fee rate, amm/dlmm.rs.
use mobius_searcher.Base.{
  ℕ, zero, suc, ◌+◌, ◌≤◌, ◌<◌, ◌≡◌, refl, Bool, true, false, Option, none, some, List, [], ◌∷◌,
  length, ltb, ◌==◌, if◌then◌else◌, arith, ◌⊎◌, inl, inr, Bool-cases, Option-cases, ◌>>=◌,
}
use mobius_searcher.Base.Int.{ℤ, pos, ◌+ℤ◌, ◌-ℤ◌, ◌≤ℤ◌, ◌<ℤ◌, leb_ℤ, int_laws}
use mobius_searcher.Market.Amm.Dlmm.{
  Bin, Dlmm, Swap, State, Totals, same_id, bin_at, moved, available_in, fee_rate, trade, pass,
  swap_loop, start, finish, references, swap,
}

-- How many bins the swap has not left behind.
abbrev ahead : Bool → ℤ → List (ℤ × Bin) → ℕ
ahead d id [] = 0
ahead true id ((k, b) ∷ bins) = (if leb_ℤ k id then 1 else 0) + ahead true id bins
ahead false id ((k, b) ∷ bins) = (if leb_ℤ id k then 1 else 0) + ahead false id bins

ahead-length : (d : Bool) (id : ℤ) (bins : List (ℤ × Bin)) → ahead d id bins ≤ length bins
ahead-length d id [] = omega arith
ahead-length true id ((k, b) ∷ bins) = ground (arith, ahead-length true id bins)
ahead-length false id ((k, b) ∷ bins) = ground (arith, ahead-length false id bins)

ahead_down :
    (id id' : ℤ) (bins : List (ℤ × Bin)) → id' ≤ℤ id → ahead true id' bins ≤ ahead true id bins
ahead_down id id' [] h = omega arith
ahead_down id id' ((k, b) ∷ bins) h = ground (arith, ahead_down id id' bins h)

ahead_up :
    (id id' : ℤ) (bins : List (ℤ × Bin)) → id ≤ℤ id' → ahead false id' bins ≤ ahead false id bins
ahead_up id id' [] h = omega arith
ahead_up id id' ((k, b) ∷ bins) h = ground (arith, ahead_up id id' bins h)

left_down :
    (id id' : ℤ) (bins : List (ℤ × Bin)) (bin : Bin)
    → id' <ℤ id
    → bin_at id bins ≡ some bin
    → ahead true id' bins < ahead true id bins
unfolding bin_at
left_down id id' [] bin lt h = absurd (ground arith)
left_down id id' ((k, b) ∷ bins) bin lt h = elim (Bool-cases (same_id k id)) [
  | inl here ↦ ground (arith, ahead_down id id' bins (omega arith))
  | inr elsewhere ↦ ground (arith, left_down id id' bins bin lt (rw elsewhere at h))
]

left_up :
    (id id' : ℤ) (bins : List (ℤ × Bin)) (bin : Bin)
    → id <ℤ id'
    → bin_at id bins ≡ some bin
    → ahead false id' bins < ahead false id bins
unfolding bin_at
left_up id id' [] bin lt h = absurd (ground arith)
left_up id id' ((k, b) ∷ bins) bin lt h = elim (Bool-cases (same_id k id)) [
  | inl here ↦ ground (arith, ahead_up id id' bins (omega arith))
  | inr elsewhere ↦ ground (arith, left_up id id' bins bin lt (rw elsewhere at h))
]

left_behind :
    (d : Bool) (id : ℤ) (bins : List (ℤ × Bin)) (bin : Bin)
    → bin_at id bins ≡ some bin
    → ahead d (moved d id) bins < ahead d id bins
left_behind true id bins bin h = left_down id (id -ℤ pos 1) bins bin (omega int_laws) h
left_behind false id bins bin h = left_up id (id +ℤ pos 1) bins bin (omega int_laws) h

-- A pass sells the rest, or leaves its bin behind.
Onward : Dlmm → Bool → State → Option State → Type 0
Onward p d s none = Unit
Onward p d s (some s') = (s'.totals.left ≡ 0) ⊎ (ahead d s'.id p.bins < ahead d s.id p.bins)

bind-Onward {ℓ} :
    {A : Type ℓ} (p : Dlmm) (d : Bool) (s : State) (m : Option A) (f : A → Option State)
    → ((a : A) → m ≡ some a → Onward p d s (f a))
    → Onward p d s (m >>= f)
unfolding Onward
bind-Onward p d s none f h = tt
bind-Onward p d s (some a) f h = h a refl

sold_or_left :
    (p : Dlmm) (d : Bool) (s : State) (bin : Bin) (t : Totals)
    → bin_at s.id p.bins ≡ some bin
    → (t.left ≡ 0)
      ⊎ (ahead d (if ltb 0 t.left then moved d s.id else s.id) p.bins < ahead d s.id p.bins)
sold_or_left p d s bin t found = elim (Bool-cases (ltb 0 t.left)) [
  | inl more ↦ rw more (inr (left_behind d s.id p.bins bin found))
  | inr sold ↦ inl (ground arith)
]

pass-Onward :
    (p : Dlmm) (d : Bool) (index : ℤ) (volatility : ℕ) (s : State)
    → Onward p d s (pass p d (index, volatility) s)
unfolding pass Onward
pass-Onward p d index volatility s = bind-Onward p d s (bin_at s.id p.bins) _ (λ bin found.
    bind-Onward p d s
      (if ltb 0 (available_in d bin)
        then trade d bin (fee_rate p s.id index volatility) (available_in d bin) s.totals
        else some s.totals)
      (λ (t : Totals).
        some (record { id = if ltb 0 t.left then moved d s.id else s.id; totals = t }))
      (λ t _. sold_or_left p d s bin t found))

onward :
    (p : Dlmm) (d : Bool) (s s' : State) (r : Option State)
    → Onward p d s r
    → r ≡ some s'
    → (s'.totals.left ≡ 0) ⊎ (ahead d s'.id p.bins < ahead d s.id p.bins)
unfolding Onward
onward p d s s' r o e = rw e at o

loop_ends :
    (p : Dlmm) (d : Bool) (index : ℤ) (volatility fuel : ℕ) (s : State)
    → (s.totals.left ≡ 0) ⊎ (ahead d s.id p.bins < fuel)
    → (r : Option State) × (swap_loop p d (index, volatility) fuel s ≡ some r)
unfolding swap_loop
loop_ends p d index volatility zero s h = elim (Bool-cases (s.totals.left == 0)) [
  | inl sold ↦ rw sold (some s, refl)
  | inr more ↦ absurd (ground arith)
]
loop_ends p d index volatility (suc fuel) s h = elim (Bool-cases (s.totals.left == 0)) [
  | inl sold ↦ rw sold (some s, refl)
  | inr more ↦ elim (Option-cases (pass p d (index, volatility) s)) [
    | inl e ↦ rw (more, e) (none, refl)
    | inr (s', e) ↦
        let o =
          onward p d s s' (pass p d (index, volatility) s) (pass-Onward p d index volatility s) e in
        rw (more, e) (loop_ends p d index volatility fuel s' (ground arith))
  ]
]

-- Selling into a pool of bins ends, whatever its bins and their prices: one pass for each bin and
-- one more are enough, and the answer is a swap or that it is not known.
pub bin_swap_ends :
    (p : Dlmm) (x_to_y : Bool) (amount_in : ℕ) (now : ℤ)
    → (r : Option Swap) × (swap p x_to_y amount_in now ≡ some r)
unfolding swap
bin_swap_ends p d amount_in now =
    let (index, volatility) = references p now in
    let (r, e) =
      loop_ends p d index volatility (length p.bins + 1) (start p amount_in)
        (inr (omega (arith, ahead-length d p.active_id p.bins))) in
    rw (e, swap) (finish r, refl)
