-- ===== src/Telemetry/Window/Tests.antt =====
-- Runs of the window limiter, and its theorem at a busy moment.
use mobius_searcher.Base.{ℕ, ◌+◌, ◌≤◌, ◌/◌, ◌≡◌, refl, List, [], ◌∷◌, ◌++◌, arith}
use mobius_searcher.Telemetry.Window.{
  new, try_acquire, available, next_slot, free_slots, local_free, headroom, prune, prune_sent,
  slot_after,
}
use mobius_searcher.Telemetry.Window.Safety.{
  Call, acquires, asks, step, run, after, recent, window_safe,
}

abbrev second : ℕ
second = 1_000_000_000

-- Two slots of three are taken, one of them a second ago.
abbrev busy : List Call
busy = acquires second 0 ∷ acquires (second + second / 2) 0 ∷ asks (second + second / 2) 0 ∷ []

busy_log : (after (λ d. d / 2) 3 second 0 busy).log ≡ second ∷ (second + second / 2) ∷ []
unfolding step run new try_acquire available next_slot free_slots local_free headroom prune_sent
    slot_after
busy_log = refl

window_safe_example :
    recent second
        (second + second)
        ((after (λ d. d / 2) 3 second 0 busy).log ++ (second + second) ∷ [])
      + headroom (prune (after (λ d. d / 2) 3 second 0 busy).inner (second + second)) 0
    ≤ 3
unfolding step run new try_acquire available next_slot free_slots local_free headroom prune_sent
    slot_after
window_safe_example =
    window_safe (λ d. d / 2) 3 second 0 busy (second + second) 0 (omega arith) (omega arith) refl
