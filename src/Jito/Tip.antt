-- ===== src/Jito/Tip.antt =====
-- crates/jito/src/tip_policy.rs, with its configuration (TipPolicyConfig in
-- crates/core/src/config.rs) and the landed tips (TipFloor in crates/core/src/event.rs). The text
-- `basis` of a quote, which is only shown, is not modelled.
pub mod Bounds
mod Tests
use Prim.Native.String.{String}
use text.Mathlib.Text.{◌==◌}
use mobius_searcher.Base.{
  ℕ, ◌*◌, ◌/◌, ◌%◌, ◌^◌, Bool, true, false, Option, none, some, ltb, if◌then◌else◌, max,
}
use mobius_searcher.Base.Int.{ℤ, pos_part}
use mobius_searcher.Core.Units.{jito_min_tip_lamports}
use mobius_searcher.Core.Time.{Ts}

pub data TipPolicyKind : Type 0 where
  fixed percentile profit_share : TipPolicyKind

pub record TipPolicyConfig : Type 0 where
  pub kind : TipPolicyKind
  pub fixed_lamports : ℕ
  pub percentile : String
  pub profit_share_bps : ℕ
  pub min_lamports : ℕ
  pub max_lamports : ℕ

pub record TipFloor : Type 0 where
  pub ts : Ts
  pub p25 : ℕ
  pub p50 : ℕ
  pub p75 : ℕ
  pub p95 : ℕ
  pub p99 : ℕ
  pub ema_p50 : ℕ

pub record TipQuote : Type 0 where
  pub lamports : ℕ
  pub capped : Bool

-- `TipPolicy::pick`
pub pick : TipFloor → String → ℕ
pick floor which =
    if which == "p25"
    then floor.p25
    else if which == "p75"
    then floor.p75
    else if which == "p95"
    then floor.p95
    else if which == "p99"
    then floor.p99
    else if which == "ema50"
    then floor.ema_p50
    else floor.p50

-- The tip that the policy wants, before its limits; the share is cast to u64.
unfoldable pub raw_tip : TipPolicyConfig → Option TipFloor → ℤ → ℕ
raw_tip c floor profit = elim c.kind [
  | TipPolicyKind.fixed ↦ c.fixed_lamports
  | TipPolicyKind.percentile ↦ elim floor [ none ↦ c.fixed_lamports | some f ↦ pick f c.percentile ]
  | TipPolicyKind.profit_share ↦ (pos_part profit * c.profit_share_bps / 10_000) % 2 ^ 64
]

abbrev pub floor_min : TipPolicyConfig → ℕ
floor_min c = max c.min_lamports jito_min_tip_lamports

-- `x.clamp(lo, hi)` for lo ≤ hi
abbrev pub clamp : ℕ → ℕ → ℕ → ℕ
clamp lo hi x = if ltb x lo then lo else if ltb hi x then hi else x

-- `TipPolicy::quote`
unfoldable pub quote : TipPolicyConfig → Option TipFloor → ℤ → TipQuote
quote c floor profit = record {
  lamports = clamp (floor_min c) (max c.max_lamports (floor_min c)) (raw_tip c floor profit);
  capped = ltb c.max_lamports (raw_tip c floor profit);
}
