-- ===== src/Execution/Live/Tests.antt =====
-- A backend that lands the bundle on the second poll: the world is the time and the answers to come.
use Prim.Native.String.{String}
use mobius_searcher.Base.{ℕ, ◌≤◌, ◌≡◌, refl, some, List, [], ◌∷◌, arith, ◌⊎◌}
use mobius_searcher.Base.Int.{◌-ℤ◌}
use mobius_searcher.Base.Words.{wrap_i64}
use mobius_searcher.Jito.Permit.{granted}
use mobius_searcher.Execution.Live.{sign_all, signed, execute_live}
use mobius_searcher.Execution.Live.Careful.{Unsent, SentOnce, Fresh, execute_live-careful}
use mobius_searcher.Execution.Live.Ends.{Returns, execute_live-Returns}
use mobius_searcher.Execution.Live.Samples.{timed, node, keys, params, start, end, outcome}

run_lands :
    execute_live node params granted keys 7 1_000 ("tx" ∷ []) (record { world = start; calls = [] })
    ≡ some (outcome, end)
unfolding execute_live wrap_i64 ◌-ℤ◌
run_lands = refl

execute_live-careful_example :
    Unsent outcome end.calls
    ⊎ (Fresh node params granted 1_000 start
        × ((text : String) × (signatures : List String) × (before : ℕ) × (sign_all keys ("tx" ∷ [])
              ≡ signed (text ∷ []) signatures)
            × (50_000_000 ≤ before)
            × SentOnce text signatures before outcome end.calls))
execute_live-careful_example =
    execute_live-careful node params granted keys 7 1_000 ("tx" ∷ []) start outcome end run_lands

execute_live-Returns_example : Returns (
    execute_live node params granted keys 7 1_000
      ("tx" ∷ [])
      (record { world = start; calls = [] }))
execute_live-Returns_example =
    execute_live-Returns node params timed granted (omega arith) keys 1_000 ("tx" ∷ [])
      (record { world = start; calls = [] })
