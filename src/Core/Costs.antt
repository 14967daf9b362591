-- ===== src/Core/Costs.antt =====
-- crates/core/src/costs.rs: the cost model, in lamports. `saturating_add` is a sum cut at the top
-- of its width. The products in `compute_costs` that the source writes with a plain `*` on u64
-- wrap at 64 bits; `compute_costs` gives `none` where `cu_limit_with_margin` panics.
pub mod Laws
pub mod Consumed
use mobius_searcher.Base.{
  ℕ, zero, suc, ◌+◌, ◌-◌, ◌*◌, ◌/◌, ◌%◌, ◌^◌, Bool, true, false, Option, none, some, List, [], ◌∷◌,
  map, length, replicate, ltb, leb, ◌==◌, if◌then◌else◌, ◌>>=◌, max, min,
}
use mobius_searcher.Base.Int.{pos_part}
use mobius_searcher.Base.Words.{u8_max, u32_max, u64_max, saturate, div_ceil}
use mobius_searcher.Core.Units.{
  Ppm, ppm_one, base_fee_lamports_per_signature, max_compute_units_per_tx, cu_limit_with_margin,
  priority_fee_lamports,
}
use mobius_searcher.Core.Route.{Leg}

pub data CostSource : Type 0 where
  quote simulated : CostSource

pub record CostBreakdown : Type 0 where
  pub source : CostSource
  pub tx_count : ℕ
  pub signatures : ℕ
  pub base_fee : ℕ
  pub compute_units_limit : ℕ
  pub compute_units_used : Option ℕ
  pub compute_unit_price_micro : ℕ
  pub priority_fee : ℕ
  pub jito_tip : ℕ
  pub ata_rent : ℕ
  pub atas_created : ℕ
  pub expected_slippage : ℕ
  pub safety_buffer : ℕ
  pub platform_fee : ℕ
  pub swap_fees_embedded : Bool

abbrev pub add64 : ℕ → ℕ → ℕ
add64 a b = saturate u64_max (a + b)

-- `CostBreakdown::total`
unfoldable pub total : CostBreakdown → ℕ
total c =
    add64
      (add64 (add64 (add64 (add64 c.base_fee c.priority_fee) c.jito_tip) c.expected_slippage)
        c.safety_buffer)
      c.platform_fee

-- `CostBreakdown::landing_cost`
unfoldable pub landing_cost : CostBreakdown → ℕ
landing_cost c = add64 (add64 c.base_fee c.priority_fee) c.jito_tip

pub record CostParams : Type 0 where
  pub cu_margin : Ppm
  pub est_cu_per_leg : ℕ
  pub max_cu_price_micro : ℕ
  pub expected_slippage_share : Ppm
  pub safety_buffer_lamports : ℕ
  pub safety_buffer : Ppm
  pub token_account_rent : ℕ
  pub max_new_deposit : ℕ

pub record TxShape : Type 0 where
  pub tx_count : ℕ
  pub signatures_per_tx : ℕ

-- `TxShape::bundle`: the number of legs is cast to a u8.
abbrev pub bundle : ℕ → TxShape
bundle legs = record { tx_count = max legs 1 % 2 ^ 8; signatures_per_tx = 1 }

pub record CostInputs : Type 0 where
  pub legs : List Leg
  pub input : ℕ
  pub shape : TxShape
  pub cu_used : Option (List ℕ)
  pub cu_price_micro : ℕ
  pub jito_tip : ℕ
  pub atas_to_create : ℕ
  pub platform_fee : ℕ

abbrev pub last_leg : List Leg → Option Leg
last_leg [] = none
last_leg (l ∷ []) = some l
last_leg (l ∷ k ∷ ls) = last_leg (k ∷ ls)

-- `share × (out − min_out)` of the final leg; the share is clamped to 0 … 1.
unfoldable pub expected_slippage : List Leg → Ppm → ℕ
expected_slippage legs share = elim (last_leg legs) [
  | none ↦ 0
  | some l ↦ div_ceil ((l.out_amount - l.min_out) * min (pos_part share) ppm_one) ppm_one
]

-- The cast of the proportional part to u64 wraps.
unfoldable pub safety_buffer : ℕ → CostParams → ℕ
safety_buffer input p =
    add64 p.safety_buffer_lamports (div_ceil (input * pos_part p.safety_buffer) ppm_one % 2 ^ 64)

-- `used.iter().map(|u| cu_limit_with_margin(*u, margin)).collect()`
pub margins : Ppm → List ℕ → Option (List ℕ)
margins margin [] = some []
margins margin (u ∷ us) = do
  limit ← cu_limit_with_margin u margin
  rest ← margins margin us
  some (limit ∷ rest)

-- `fold(0, saturating_add)`
pub saturating_sum : ℕ → ℕ → List ℕ → ℕ
saturating_sum top acc [] = acc
saturating_sum top acc (x ∷ xs) = saturating_sum top (saturate top (acc + x)) xs

-- The limits per transaction, the consumption if it is known, and where they come from.
pub record CuLimits : Type 0 where
  pub limits : List ℕ
  pub used : Option ℕ
  pub source : CostSource

abbrev estimated_limits : CostInputs → CostParams → ℕ → CuLimits
estimated_limits inp p tx_count =
    let total_est = saturate u32_max (p.est_cu_per_leg * (max (length inp.legs) 1 % 2 ^ 32)) in
    record {
      limits = replicate tx_count (min (total_est / tx_count) max_compute_units_per_tx);
      used = none;
      source = quote;
    }

pub cu_limits : CostInputs → CostParams → ℕ → Option CuLimits
unfolding margins saturating_sum
cu_limits inp p tx_count = elim inp.cu_used [
  | none ↦ some (estimated_limits inp p tx_count)
  | some [] ↦ some (estimated_limits inp p tx_count)
  | some (u ∷ us) ↦ do
    limits ← margins p.cu_margin (u ∷ us)
    some (record {
      limits = limits;
      used = some (saturating_sum u32_max 0 (u ∷ us));
      source = simulated;
    })
]

abbrev transactions : CostInputs → ℕ
transactions inp = max inp.shape.tx_count 1

-- The breakdown that `compute_costs` builds from the limits.
unfoldable pub breakdown : CostInputs → CostParams → CuLimits → CostBreakdown
unfolding expected_slippage safety_buffer saturating_sum
breakdown inp p l =
    let signatures = saturate u8_max (transactions inp * max inp.shape.signatures_per_tx 1) in
    let cu_price = min inp.cu_price_micro p.max_cu_price_micro in
    record {
      source = l.source;
      tx_count = transactions inp;
      signatures = signatures;
      base_fee = base_fee_lamports_per_signature * signatures;
      compute_units_limit = saturating_sum u32_max 0 l.limits;
      compute_units_used = l.used;
      compute_unit_price_micro = cu_price;
      priority_fee =
          saturating_sum u64_max 0 (map (λ limit. priority_fee_lamports limit cu_price) l.limits);
      jito_tip = inp.jito_tip;
      ata_rent = (p.token_account_rent * inp.atas_to_create) % 2 ^ 64;
      atas_created = inp.atas_to_create;
      expected_slippage = expected_slippage inp.legs p.expected_slippage_share;
      safety_buffer = safety_buffer inp.input p;
      platform_fee = inp.platform_fee;
      swap_fees_embedded = true;
    }

unfoldable pub compute_costs : CostInputs → CostParams → Option CostBreakdown
unfolding cu_limits breakdown
compute_costs inp p = do l ← cu_limits inp p (transactions inp); some (breakdown inp p l)
