-- ===== src/Storage/Retention.antt =====
-- crates/storage/src/retention.rs: `prune`. The database is a parameter on a world: the sizes, the
-- sessions by age, whether a session has trades, and the deletions, each of which may fail. Every
-- deletion that is asked for is noted, the latest first. Sums and products on i64 and u64 wrap.
pub mod Spares
mod Tests
use Prim.Native.String.{String}
use text.Mathlib.Text.{◌==◌ as str_eq}
use mobius_searcher.Base.{
  ℕ, ◌+◌, ◌*◌, ◌%◌, ◌^◌, Bool, true, false, ◌&&◌, ◌||◌, not, Option, none, some, List, [], ◌∷◌,
  ◌++◌, leb, if◌then◌else◌,
}
use mobius_searcher.Base.Int.{pos, ◌-ℤ◌, ◌*ℤ◌, ltb_ℤ}
use mobius_searcher.Base.Words.{wrap_i64}
use mobius_searcher.Base.Results.{Result, ok, err}
use mobius_searcher.Core.Time.{Ts}

pub record Retention : Type 0 where
  pub keep_days : ℕ
  pub keep_trading_days : ℕ
  pub max_db_mb : ℕ

pub record PruneReport : Type 0 where
  pub sessions_deleted : List String
  pub detail_rows_deleted : ℕ
  pub bytes_before : ℕ
  pub bytes_after : ℕ

-- A session: its last activity, and whether it is still open.
pub record Session : Type 0 where
  pub id : String
  pub last : Ts
  pub still_open : Bool

-- A session that the first round keeps.
pub record Kept : Type 0 where
  pub session : Session
  pub protected : Bool
  pub running : Bool

-- `Store`, as `prune` uses it: `delete_details` deletes the rows of a session that are older than a
-- time, in every table that has one.
pub record Store (W : Type 0) : Type 0 where
  pub used_bytes : W → Result ℕ
  pub sessions_by_age : W → Result (List Session)
  pub has_trades : String → W → Result Bool
  pub delete_session : String → W → Result ℕ × W
  pub delete_details : String → Ts → W → Result ℕ × W
  pub release : W → Result (Unit {0}) × W

pub record Prune (W : Type 0) : Type 0 where
  pub world : W
  pub report : PruneReport
  pub asked : List String

abbrev pub day_us : ℕ
day_us = 86_400_000_000

abbrev pub hour_us : ℕ
hour_us = 3_600_000_000

-- `now.0 - days as i64 * day`
unfoldable pub days_before : Ts → ℕ → Ts
days_before now days = wrap_i64 (now -ℤ wrap_i64 (pos days *ℤ pos day_us))

-- What a step ends with: an error ends the whole call.
abbrev pub Ended : Type 0 → Type 0 → Type 0
Ended W A = Result A × Prune W

abbrev pub and_then : {W A B : Type 0} → Ended W A → (A → Prune W → Ended W B) → Ended W B
and_then (ok a, p) k = k a p
and_then (err text, p) k = (err text, p)

module _ {W : Type 0} (db : Store W) (r : Retention) (now : Ts) (current : Option String) where
  abbrev pub is_current : String → Bool
  is_current id = elim current [ none ↦ false | some c ↦ str_eq id c ]

  -- Recorded now, by this program or, within the last hour, by another one.
  pub is_running : Session → Bool
  is_running x = is_current x.id || (x.still_open && ltb_ℤ (wrap_i64 (now -ℤ x.last)) (pos hour_us))

  abbrev pub limit_for : Bool → Ts
  limit_for protected = days_before now (if protected then r.keep_trading_days else r.keep_days)

  -- `delete_session` and the note in the report.
  unfoldable pub delete : String → Prune W → Ended W (Unit {0})
  delete id p =
      let (answer, w) = db.delete_session id p.world in
      let noted : Prune W = record p { world = w; asked = id ∷ p.asked } in
      elim answer [
        | err text ↦ (err text, noted)
        | ok n ↦ (
          ok tt,
          record noted {
            report = record (p.report) {
              sessions_deleted = p.report.sessions_deleted ++ (id ∷ []);
            };
          },
        )
      ]

  abbrev pub keep : Kept → Result (List Kept) × Prune W → Ended W (List Kept)
  keep k (ok ks, p) = (ok (k ∷ ks), p)
  keep k (err text, p) = (err text, p)

  -- The first round: what is too old goes.
  unfoldable pub sweep : List Session → Prune W → Ended W (List Kept)
  sweep [] p = (ok [], p)
  sweep (x ∷ xs) p = elim (db.has_trades x.id p.world) [
    | err text ↦ (err text, p)
    | ok protected ↦
        let old = ltb_ℤ x.last (limit_for protected) in
        let gone = and_then (delete x.id p) (λ _ p'. sweep xs p') in
        let stays : Kept = record { session = x; protected = protected; running = is_running x } in
        let rest = keep stays (sweep xs p) in if not (is_running x) && old then gone else rest
  ]

  -- The second round: old details of the sessions that stay, without trades.
  unfoldable pub trim_details : List Kept → Prune W → Ended W (Unit {0})
  trim_details [] p = (ok tt, p)
  trim_details (k ∷ ks) p =
      let (answer, w) = db.delete_details k.session.id (limit_for false) p.world in
      let trimmed = λ (n : ℕ). trim_details ks (record p {
        world = w;
        report = record (p.report) {
          detail_rows_deleted = (p.report.detail_rows_deleted + n) % 2 ^ 64;
        };
      }) in
      let skipped = trim_details ks p in
      if k.protected
      then skipped
      else elim answer [ ok n ↦ trimmed n | err text ↦ (err text, record p { world = w }) ]

  -- The third round: the oldest sessions, while the database is over its size.
  unfoldable pub shrink : List Kept → Prune W → Ended W (Unit {0})
  shrink [] p = (ok tt, p)
  shrink (k ∷ ks) p = elim (db.used_bytes p.world) [
    | err text ↦ (err text, p)
    | ok used ↦
        let gone = and_then (delete k.session.id p) (λ _ p'. shrink ks p') in
        let next = shrink ks p in
        if leb used (r.max_db_mb * 1_000_000 % 2 ^ 64)
        then (ok tt, p)
        else if not k.protected && not k.running
        then gone
        else next
  ]

  -- The end: free pages are handed back, and the size is taken again.
  abbrev pub sized : Prune W → Result ℕ → Ended W PruneReport
  sized p (err text) = (err text, p)
  sized p (ok used) = (ok (record (p.report) { bytes_after = used }), p)

  abbrev pub released : Prune W → Result (Unit {0}) → Ended W PruneReport
  released p (err text) = (err text, p)
  released p (ok _) = sized p (db.used_bytes p.world)

  abbrev pub closing : Prune W → Ended W PruneReport
  closing p = let (answer, w) = db.release p.world in released (record p { world = w }) answer

  abbrev pub starting : ℕ → W → Prune W
  starting used w = record {
    world = w;
    report = record {
      sessions_deleted = [];
      detail_rows_deleted = 0;
      bytes_before = used;
      bytes_after = 0;
    };
    asked = [];
  }

  abbrev pub prune_sessions : ℕ → W → Result (List Session) → Ended W PruneReport
  prune_sessions used w (err text) = (err text, starting used w)
  prune_sessions used w (ok sessions) = and_then (sweep sessions (starting used w)) (λ kept p.
      and_then (trim_details kept p) (λ _ p'. and_then (shrink kept p') (λ _ p''. closing p'')))

  abbrev pub prune_from : W → Result ℕ → Ended W PruneReport
  prune_from w (err text) = (err text, starting 0 w)
  prune_from w (ok used) = prune_sessions used w (db.sessions_by_age w)

  unfoldable pub prune : W → Ended W PruneReport
  prune w = prune_from w (db.used_bytes w)
