-- ===== src/Core/Route.antt =====
-- The parts of crates/core/src/model.rs that the cost model reads: hops, legs and routes. An
-- address is its 32 bytes, a label its text.
use Prim.Native.String.{String}
use mobius_searcher.Base.{
  ℕ, ◌+◌, ◌-◌, ◌%◌, ◌^◌, Bool, true, false, ◌&&◌, Option, none, some, List, [], ◌∷◌, map, leb, ◌==◌,
  if◌then◌else◌,
}
use mobius_searcher.Base.Int.{pos, min_ℤ}
use mobius_searcher.Core.Units.{Ppm, ratio}
use mobius_searcher.Core.Time.{Ts}

abbrev pub Address : Type 0
Address = List ℕ

abbrev pub address_eq : Address → Address → Bool
address_eq [] [] = true
address_eq (a ∷ as') (b ∷ bs) = a == b && address_eq as' bs
address_eq _ _ = false

pub data RoutingMode : Type 0 where
  normal fast : RoutingMode

pub data DexFilter : Type 0 where
  any : DexFilter
  only : List String → DexFilter
  exclude : List String → DexFilter

pub data SlippageSpec : Type 0 where
  rtse : SlippageSpec
  fixed : ℕ → SlippageSpec

pub record Hop : Type 0 where
  pub amm_key : Address
  pub label : String
  pub input_mint : Address
  pub output_mint : Address
  pub in_amount : ℕ
  pub out_amount : ℕ
  pub bps : ℕ

pub record Leg : Type 0 where
  pub index : ℕ
  pub input_mint : Address
  pub output_mint : Address
  pub in_amount : ℕ
  pub out_amount : ℕ
  pub min_out : ℕ
  pub slippage_bps : ℕ
  pub slippage_spec : SlippageSpec
  pub price_impact : Ppm
  pub hops : List Hop
  pub mode : RoutingMode
  pub dex_filter : DexFilter
  pub quoted_at : Ts
  pub latency_ms : ℕ
  pub cu_price_micro : Option ℕ
  pub last_valid_block_height : ℕ
  pub request_id : Option String

abbrev or_zero : Option Ppm → Ppm
or_zero none = pos 0
or_zero (some p) = p

-- `Leg::tolerance`
pub tolerance : Leg → Ppm
tolerance l = or_zero (ratio (pos (l.out_amount - l.min_out)) (pos l.out_amount))

pub record Route : Type 0 where
  pub legs : List Leg

-- `Route::mint_path`
unfoldable pub mint_path : Route → List Address
mint_path r = elim r.legs [
  | [] ↦ []
  | l ∷ ls ↦ l.input_mint ∷ map (λ (x : Leg). x.output_mint) (l ∷ ls)
]

-- `Iterator::min` over the quote times
abbrev pub oldest_of : List Leg → Option Ts
oldest_of [] = none
oldest_of (l ∷ ls) = elim (oldest_of ls) [
  | none ↦ some l.quoted_at
  | some t ↦ some (min_ℤ l.quoted_at t)
]

-- `Route::oldest_quote`
unfoldable pub oldest_quote : Route → Option Ts
oldest_quote r = oldest_of r.legs

-- `Iterator::max` over the legs' slippage
abbrev pub worst_slippage : List Leg → Option ℕ
worst_slippage [] = none
worst_slippage (l ∷ ls) = elim (worst_slippage ls) [
  | none ↦ some l.slippage_bps
  | some w ↦ some (if leb l.slippage_bps w then w else l.slippage_bps)
]

latency_from : ℕ → List Leg → ℕ
latency_from acc [] = acc
latency_from acc (l ∷ ls) = latency_from ((acc + l.latency_ms) % 2 ^ 32) ls

-- `Route::total_latency_ms`: a u32 sum that wraps.
pub total_latency_ms : Route → ℕ
unfolding latency_from
total_latency_ms r = latency_from 0 r.legs

abbrev pub last_address : Address → List Address → Address
last_address a [] = a
last_address a (b ∷ bs) = last_address b bs

-- `Route::is_closed_cycle`
unfoldable pub is_closed_cycle : Route → Bool
unfolding mint_path
is_closed_cycle r = elim (mint_path r) [
  | [] ↦ false
  | a ∷ [] ↦ false
  | a ∷ b ∷ rest ↦ address_eq a (last_address b rest)
]
