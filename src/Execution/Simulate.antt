-- ===== src/Execution/Simulate.antt =====
-- crates/execution/src/simulate.rs: what a simulation says. The JSON of an error is its text and its
-- custom code, as the third-party accessors give them; decoding base64 is a parameter. `none` is the
-- panic of `cu_limit_with_margin`.
mod Tests
use Prim.Native.String.{String, ◌++◌}
use text.Mathlib.Text.{◌==◌ as str_eq}
use mobius_searcher.Base.{
  ℕ, zero, suc, ◌+◌, ◌*◌, ◌%◌, ◌^◌, Bool, true, false, ◌&&◌, ◌||◌, Option, none, some, List, [],
  ◌∷◌, length, ltb, ◌==◌, if◌then◌else◌, ◌>>=◌, min,
}
use mobius_searcher.Base.Int.{ℤ, pos}
use mobius_searcher.Base.Words.{u32_max}
use mobius_searcher.Base.Texts.{codes, strip_prefix, contains}
use mobius_searcher.Core.Units.{Ppm, cu_limit_with_margin}
use mobius_searcher.Core.Units.Text.{trim}
use mobius_searcher.Core.Route.{Address}
use mobius_searcher.Core.Model.{SimFailure, SimFailureClass, TxSim}

-- The error of a simulation: `to_string()`, and `InstructionError[1].Custom`.
pub record JsonError : Type 0 where
  pub shown : String
  pub custom : Option ℕ

-- `SimulateOutcome` of crates/market/src/rpc.rs
pub record SimulateOutcome : Type 0 where
  pub context_slot : Option ℕ
  pub err : Option JsonError
  pub logs : List String
  pub units_consumed : Option ℕ
  pub fee : Option ℕ
  pub pre_balances : Option (List ℕ)
  pub post_balances : Option (List ℕ)

-- `AssembledTx` of crates/execution/src/assemble.rs
pub record AssembledTx (Tx : Type 0) : Type 0 where
  pub tx : Tx
  pub wire : List ℕ
  pub size : ℕ
  pub accounts : ℕ
  pub cu_limit : ℕ
  pub cu_price_micro : ℕ
  pub tip_lamports : ℕ
  pub creates_atas : List Address
  pub ata_create_ixs : ℕ

abbrev pub jup_slippage : ℕ
jup_slippage = 6001

abbrev pub jup_insufficient_funds : ℕ
jup_insufficient_funds = 6024

-- A text in one of the logs. The texts that are searched hold no line break, so that the joined
-- logs hold one exactly if one of them does.
pub any_log : String → List String → Bool
unfolding contains
any_log s [] = false
any_log s (l ∷ ls) = contains (codes s) (codes l) || any_log s ls

abbrev is_code : ℕ → Option ℕ → Bool
is_code n none = false
is_code n (some k) = k == n

pub has : JsonError → List String → String → Bool
unfolding any_log
has e logs s = contains (codes s) (codes e.shown) || any_log s logs

unfoldable pub classify : JsonError → List String → SimFailureClass
unfolding has
classify e logs =
    if has e logs "SlippageToleranceExceeded"
      || is_code jup_slippage e.custom
      || any_log "0x1771" logs
    then SimFailureClass.slippage_exceeded
    else if has e logs "InsufficientFunds"
        || has e logs "insufficient funds"
        || has e logs "insufficient lamports"
        || is_code jup_insufficient_funds e.custom
    then SimFailureClass.insufficient_funds
    else if has e logs "BlockhashNotFound"
    then SimFailureClass.blockhash_not_found
    else if has e logs "AccountNotFound"
        || has e logs "ProgramAccountNotFound"
        || has e logs "InvalidAccountForFee"
        || has e logs "IncorrectProgramId"
        || has e logs "UninitializedAccount"
    then SimFailureClass.account_not_found
    else if has e logs "ComputationalBudgetExceeded"
        || has e logs "exceeded CUs meter"
        || has e logs "ProgramFailedToComplete"
    then SimFailureClass.compute_exceeded
    else if has e logs "TooManyAccountLocks" || has e logs "MaxLoadedAccountsDataSizeExceeded"
    then SimFailureClass.too_many_accounts
    else if has e logs "InstructionError"
    then SimFailureClass.program_error
    else SimFailureClass.unknown

-- Whether a log line tells of an error.
tells : String → Bool
unfolding contains
tells l =
    contains (codes "Error") (codes l)
    || contains (codes "failed") (codes l)
    || contains (codes "insufficient") (codes l)

-- The last such line, or nothing.
log_hint : List String → String
unfolding tells
log_hint [] = ""
log_hint (l ∷ ls) = let later = log_hint ls in if str_eq later "" && tells l then l else later

pub message_of : JsonError → List String → String
unfolding log_hint
message_of e logs =
    let hint = log_hint logs in if str_eq hint "" then e.shown else e.shown ++ (" · " ++ hint)

unfoldable pub failure_from : ℕ → SimulateOutcome → Option SimFailure
unfolding message_of
failure_from index out = elim out.err [
  | none ↦ none
  | some e ↦
      some
        (record { class = classify e out.logs; tx_index = index; message = message_of e out.logs })
]

-- `u64::from_le_bytes(b.get(..8)?)`, for the first `n` bytes.
pub from_le_bytes : ℕ → List ℕ → Option ℕ
from_le_bytes zero bs = some 0
from_le_bytes (suc n) [] = none
from_le_bytes (suc n) (b ∷ bs) = from_le_bytes n bs >>= λ rest. some (b + 256 * rest)

abbrev returned : String
returned = "Program return: JUP6LkbZbjS1jKKwapdHNy74zcZ3tLUZoi5QNyVTaV4 "

module _ (base64 : List ℕ → Option (List ℕ)) where
  pub output_of : String → Option ℕ
  unfolding strip_prefix trim from_le_bytes
  output_of l = do
    text ← strip_prefix (codes returned) (codes l)
    bytes ← base64 (trim text)
    from_le_bytes 8 bytes

  -- Outputs of the route instructions, in the order of the logs.
  unfoldable pub jupiter_outputs : List String → List ℕ
  unfolding output_of
  jupiter_outputs [] = []
  jupiter_outputs (l ∷ ls) =
      let rest = jupiter_outputs ls in elim (output_of l) [ none ↦ rest | some out ↦ out ∷ rest ]

-- Accounts without lamports before and with some after.
unfoldable pub created_accounts : List Address → List ℕ → List ℕ → List (Address × ℕ)
created_accounts (k ∷ ks) (b ∷ bs) (a ∷ as') =
    let rest = created_accounts ks bs as' in if b == 0 && ltb 0 a then (k, a) ∷ rest else rest
created_accounts _ _ _ = []

abbrev pub first_balances : Option (List ℕ) → Option (List ℕ) → Option (ℕ × ℕ)
first_balances (some (b ∷ bs)) (some (a ∷ as')) = some (b, a)
first_balances _ _ = none

abbrev pub created_of :
    Option (List Address) → Option (List ℕ) → Option (List ℕ) → List (Address × ℕ)
created_of (some ks) (some pre) (some post) =
    if length ks == length pre then created_accounts ks pre post else []
created_of _ _ _ = []

abbrev pub is_ok : Option JsonError → Bool
is_ok none = true
is_ok (some e) = false

abbrev pub used_units : SimulateOutcome → ℕ
used_units out = elim out.units_consumed [ none ↦ 0 | some u ↦ min u u32_max ]

-- The result for one transaction, at its compute limit.
unfoldable pub tx_result :
    {Tx : Type 0}
    → (List ℕ → Option (List ℕ))
    → ℕ
    → AssembledTx Tx
    → SimulateOutcome
    → Option (List Address)
    → ℕ
    → TxSim
tx_result base64 index a out keys limit = record {
  index = index;
  ok = is_ok out.err;
  units_consumed = used_units out;
  cu_limit = limit;
  cu_price_micro = a.cu_price_micro;
  fee = out.fee;
  size_bytes = a.size % 2 ^ 32;
  accounts = a.accounts % 2 ^ 16;
  logs = out.logs;
  err = elim out.err [ none ↦ none | some e ↦ some e.shown ];
  taker_lamports = first_balances out.pre_balances out.post_balances;
  leg_outputs = jupiter_outputs base64 out.logs;
  created = if is_ok out.err then created_of keys out.pre_balances out.post_balances else [];
}

unfoldable pub tx_sim :
    {Tx : Type 0}
    → (List ℕ → Option (List ℕ))
    → ℕ
    → AssembledTx Tx
    → SimulateOutcome
    → Ppm
    → Option (List Address)
    → Option TxSim
tx_sim base64 index a out margin keys = do
  limit ←
      if ltb 0 (used_units out)
      then cu_limit_with_margin (used_units out) margin
      else some a.cu_limit
  some (tx_result base64 index a out keys limit)
