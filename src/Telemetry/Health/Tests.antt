-- ===== src/Telemetry/Health/Tests.antt =====
-- Reports about two services.
use mobius_searcher.Base.{◌≡◌, ◌≤◌, ◌↔◌, refl, none, List, [], ◌∷◌, length, arith}
use mobius_searcher.Base.Int.{pos}
use mobius_searcher.Core.Records.{ServiceId, ServiceState}
use mobius_searcher.Telemetry.Health.{
  ring, idx, fresh, succeeded, erred, reported, with_service, judged, Telemetry,
}
use mobius_searcher.Telemetry.Health.Apart.{Call, run, run_own, services_apart}
use mobius_searcher.Telemetry.Health.Judged.{InOrder, judged-InOrder}

abbrev calls : List Call
calls =
    (ServiceId.rpc, succeeded (pos 1_000_000) 12)
    ∷ (ServiceId.jito, erred (pos 1_100_000) none "timeout")
    ∷ (ServiceId.jito, erred (pos 1_200_000) none "timeout")
    ∷ (ServiceId.jito, erred (pos 1_300_000) none "timeout")
    ∷ []

abbrev all_fresh : Telemetry
all_fresh i = fresh

services_apart_example :
    (run calls all_fresh (idx ServiceId.jito) ≡ run_own ServiceId.jito calls fresh)
    × (length (run calls all_fresh (idx ServiceId.jito)).recent ≤ ring)
services_apart_example = services_apart calls all_fresh ServiceId.jito (omega arith)

jito_is_down : judged (run calls all_fresh (idx ServiceId.jito)) (pos 2_000_000) ≡ ServiceState.down
unfolding judged with_service reported
jito_is_down = refl

judged-InOrder_example :
    (judged (run calls all_fresh (idx ServiceId.rpc)) (pos 2_000_000) ≡ ServiceState.ok)
    ↔ InOrder (run calls all_fresh (idx ServiceId.rpc)) (pos 2_000_000)
judged-InOrder_example =
    judged-InOrder (run calls all_fresh (idx ServiceId.rpc)) (pos 2_000_000)
      (services_apart calls all_fresh ServiceId.rpc (omega arith)).1
