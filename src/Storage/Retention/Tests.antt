-- ===== src/Storage/Retention/Tests.antt =====
-- A database with four sessions: an old one, an old one with trades, the current one, and one that is
-- recent but too much for the size.
use Prim.Native.String.{String}
use text.Mathlib.Text.{◌==◌ as str_eq}
use mobius_searcher.Base.{ℕ, ◌-◌, ◌*◌, ◌≡◌, refl, false, some, List, [], ◌∷◌, All}
use mobius_searcher.Base.Int.{pos, ◌-ℤ◌, ◌*ℤ◌}
use mobius_searcher.Base.Words.{wrap_i64}
use mobius_searcher.Base.Results.{ok}
use mobius_searcher.Storage.Retention.{
  Retention, Session, Store, days_before, is_running, delete, sweep, trim_details, shrink, prune,
}
use mobius_searcher.Storage.Retention.Spares.{Allowed, prune-Spares}

abbrev rules : Retention
rules = record { keep_days = 7; keep_trading_days = 90; max_db_mb = 1 }

abbrev at_day : String → ℕ → Session
at_day id d = record { id = id; last = pos (d * 86_400_000_000); still_open = false }

abbrev listed : List Session
listed = at_day "old" 900 ∷ at_day "traded" 980 ∷ at_day "now" 900 ∷ at_day "big" 998 ∷ []

-- The world is the size in bytes.
abbrev sizes : Store ℕ
sizes = record {
  used_bytes = λ w. ok w;
  sessions_by_age = λ w. ok listed;
  has_trades = λ id w. ok (str_eq id "traded");
  delete_session = λ id w. (ok 10, w - 1_500_000);
  delete_details = λ id cutoff w. (ok 0, w);
  release = λ w. (ok tt, w);
}

asked_of_prune :
    (prune sizes rules (pos 86_400_000_000_000) (some "now") 4_000_000).1.asked ≡ "big" ∷ "old" ∷ []
unfolding prune sweep trim_details shrink delete is_running days_before wrap_i64 ◌-ℤ◌ ◌*ℤ◌
asked_of_prune = refl

prune-Spares_example :
    All
      (Allowed sizes rules (pos 86_400_000_000_000) (some "now") listed)
      (prune sizes rules (pos 86_400_000_000_000) (some "now") 4_000_000).1.asked
prune-Spares_example =
    prune-Spares sizes rules (pos 86_400_000_000_000) (some "now") 4_000_000 listed refl
