-- ===== src/Execution/Simulate/Tests.antt =====
-- The classification, the outputs and the created accounts of crates/execution/src/simulate.rs, on
-- the inputs of its own tests.
use Prim.Native.String.{String}
use mobius_searcher.Base.{◌≡◌, refl, none, some, [], ◌∷◌}
use mobius_searcher.Core.Model.{SimFailureClass}
use mobius_searcher.Execution.Simulate.{JsonError, classify, created_accounts}

abbrev error : String → JsonError
error text = record { shown = text; custom = none }

funds : classify (error "InsufficientFundsForFee") [] ≡ SimFailureClass.insufficient_funds
unfolding classify
funds = refl

slippage :
    classify
      (record { shown = "{\"InstructionError\":[3,{\"Custom\":6001}]}"; custom = some 6001 })
      []
    ≡ SimFailureClass.slippage_exceeded
unfolding classify
slippage = refl

closed_account :
    classify
      (error "{\"InstructionError\":[3,\"IncorrectProgramId\"]}")
      ("Program log: Error: IncorrectProgramId" ∷ [])
    ≡ SimFailureClass.account_not_found
unfolding classify
closed_account = refl

created :
    created_accounts
      ((1 ∷ []) ∷ (2 ∷ []) ∷ (3 ∷ []) ∷ [])
      (136_849_918 ∷ 0 ∷ 0 ∷ [])
      (123_721_514 ∷ 13_045_440 ∷ 0 ∷ [])
    ≡ (2 ∷ [], 13_045_440) ∷ []
unfolding created_accounts
created = refl
