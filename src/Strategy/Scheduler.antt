-- ===== src/Strategy/Scheduler.antt =====
-- crates/strategy/src/scheduler.rs: smooth weighted round robin over the strategies. What the
-- scheduler asks of the trait `Strategy` (strategies.rs) is the interface `Strategy`; a plan is
-- whatever a strategy makes. The sums of i64 are not cut: n strategies with u32 weights keep them
-- within n * n * 2 ^ 32.
pub mod Shares
mod Tests
use mobius_searcher.Base.{
  ℕ, zero, suc, ◌+◌, ◌≡◌, Bool, true, false, Option, none, some, List, [], ◌∷◌, ltb, if◌then◌else◌,
}
use mobius_searcher.Base.Int.{ℤ, pos, ◌+ℤ◌, ◌-ℤ◌, ltb_ℤ}

-- `weight` and `next_plan` of the trait; making a plan leaves the weight.
pub record Strategy (S P : Type 0) : Type 0 where
  pub weight : S → ℕ
  pub next_plan : S → S × Option P
  pub steady : (s : S) → weight (next_plan s).0 ≡ weight s

pub record Entry (S : Type 0) : Type 0 where
  pub strategy : S
  pub current : ℤ

module _ {S P : Type 0} (ops : Strategy S P) where
  -- `Scheduler::new`
  pub new : List S → List (Entry S)
  new [] = []
  new (s ∷ ss) =
      let rest = new ss in
      if ltb 0 (ops.weight s) then record { strategy = s; current = pos 0 } ∷ rest else rest

  abbrev pub total : List (Entry S) → ℕ
  total [] = 0
  total (e ∷ es) = ops.weight e.strategy + total es

  -- Every strategy gains its weight.
  abbrev pub raised : List (Entry S) → List (Entry S)
  raised [] = []
  raised (e ∷ es) = record e { current = e.current +ℤ pos (ops.weight e.strategy) } ∷ raised es

  -- `max_by_key` on (current, -index): the first of the largest, given the best so far.
  abbrev pub best_from : ℕ → ℤ → ℕ → List (Entry S) → ℕ
  best_from b c i [] = b
  best_from b c i (e ∷ es) =
      let more = ltb_ℤ c e.current in
      best_from (if more then i else b) (if more then e.current else c) (suc i) es

  abbrev pub best : List (Entry S) → ℕ
  best [] = 0
  best (e ∷ es) = best_from 0 e.current 1 es

  -- The chosen strategy pays the total and makes the plan; an index out of range would panic.
  abbrev pub charge : ℕ → ℕ → List (Entry S) → List (Entry S) × Option P
  charge i t [] = ([], none)
  charge zero t (e ∷ es) =
      let (s, plan) = ops.next_plan e.strategy in
      (record { strategy = s; current = e.current -ℤ pos t } ∷ es, plan)
  charge (suc i) t (e ∷ es) = let (rest, plan) = charge i t es in (e ∷ rest, plan)

  -- `Scheduler::next_plan`
  unfoldable pub next_plan : List (Entry S) → List (Entry S) × Option P
  next_plan [] = ([], none)
  next_plan (e ∷ es) = charge (best (raised (e ∷ es))) (total (e ∷ es)) (raised (e ∷ es))
