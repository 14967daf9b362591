-- ===== src/Execution/Live.antt =====
-- crates/execution/src/live.rs: `execute_live`. The backend (RPC node and block engine), the clock
-- and the wallet are parameters: a call of the backend takes the world and gives its answer and the
-- world after it. Every call is noted, the latest first. The texts of the outcomes are constructors
-- with what the texts show. Durations are in nanoseconds.
pub mod Answers
pub mod Conduct
pub mod Careful
pub mod Ends
pub mod Samples
mod Tests
use Prim.Native.String.{String}
use text.Mathlib.Text.{◌==◌ as str_eq}
use mobius_searcher.Base.{
  ℕ, zero, suc, ◌+◌, ◌-◌, ◌/◌, ◌%◌, ◌^◌, Bool, true, false, ◌||◌, Option, none, some, List, [], ◌∷◌,
  ltb, leb, if◌then◌else◌,
}
use mobius_searcher.Base.Int.{ℤ, pos, ◌-ℤ◌}
use mobius_searcher.Base.Words.{wrap_i64}
use mobius_searcher.Base.Results.{Result, ok, err}
use mobius_searcher.Jito.Permit.{SendPermit, InflightStatus}

-- `BundleConfirmation`: the confirmation status and the transaction error, once it is visible.
abbrev pub BundleConfirmation : Type 0
BundleConfirmation = Option (Option String × Option String)

-- `LiveBackend`, the clock and the timer. Of the outcome of a simulation the code reads the error.
pub record LiveBackend (W : Type 0) : Type 0 where
  pub simulate_signed : String → W → Result (Option String) × W
  pub send_bundle : SendPermit → List String → W → Result String × W
  pub inflight : String → W → Result (Option InflightStatus) × W
  pub balance : W → Result ℕ × W
  pub bundle_status : String → W → Result BundleConfirmation × W
  pub block_height : W → Option ℕ
  pub clock : W → ℕ
  pub sleep : ℕ → W → W

-- The wallet: signing, the first signature of a transaction, and its base64 text.
pub record Wallet (Tx : Type 0) : Type 0 where
  pub sign : Tx → Result Tx
  pub signature : Tx → String
  pub encode : Tx → Result String

pub record LiveParams : Type 0 where
  pub min_wallet_lamports : ℕ
  pub blockhash_margin : ℕ
  pub poll : ℕ
  pub timeout : ℕ

pub data NotSent : Type 0 where
  blockhash_expiring : ℕ → ℕ → NotSent
  height_unknown : NotSent
  sign_error serialize_error : String → NotSent
  several_transactions : NotSent
  simulation_failed simulation_unavailable : String → NotSent
  wallet_low : ℕ → ℕ → NotSent
  balance_unknown rejected : String → NotSent

pub data Failure : Type 0 where
  landed_with_error : String → Failure
  reported_failed : Failure

pub data LiveOutcome : Type 0 where
  not_sent : NotSent → LiveOutcome
  landed : String → ℕ → List String → Option ℤ → ℕ → LiveOutcome
  failed : String → Failure → ℕ → LiveOutcome
  timed_out : String → LiveOutcome

-- A call of the backend with its answer.
pub data Call : Type 0 where
  simulated : String → Result (Option String) → Call
  balance_read : Result ℕ → Call
  sent : List String → Result String → Call
  polled : String → Result (Option InflightStatus) → Call
  status_read : String → Result BundleConfirmation → Call

pub record Run (W : Type 0) : Type 0 where
  pub world : W
  pub calls : List Call

-- What is known once the bundle was accepted.
pub record Bundle : Type 0 where
  pub id : String
  pub signatures : List String
  pub before : ℕ
  pub started : ℕ

-- What the status of a landed bundle says.
pub data Verdict : Type 0 where
  errored : String → Verdict
  confirmed unclear : Verdict

pub verdict : Result BundleConfirmation → Verdict
verdict (ok (some (c, some e))) = errored e
verdict (ok (some (some c, none))) =
    if str_eq c "confirmed" || str_eq c "finalized" then confirmed else unclear
verdict (ok (some (none, none))) = unclear
verdict (ok none) = unclear
verdict (err e) = unclear

pub data Progress : Type 0 where
  landed_at : ℕ → Progress
  gave_up waiting : Progress

pub progress : Result (Option InflightStatus) → Progress
progress (ok (some (InflightStatus.landed slot))) = landed_at slot
progress (ok (some InflightStatus.failed)) = gave_up
progress (ok (some InflightStatus.invalid)) = waiting
progress (ok (some InflightStatus.pending)) = waiting
progress (ok none) = waiting
progress (err e) = waiting

-- `post.map(|b| b as i64 - pre as i64)`
abbrev pub realized : ℕ → Result ℕ → Option ℤ
realized before (err e) = none
realized before (ok after) = some (wrap_i64 (wrap_i64 (pos after) -ℤ wrap_i64 (pos before)))

abbrev pub Ended : Type 0 → Type 0
Ended W = Option (LiveOutcome × Run W)

module _ {W : Type 0} (b : LiveBackend W) (p : LiveParams) where
  abbrev pub elapsed : Bundle → Run W → ℕ
  elapsed u r = b.clock r.world - u.started

  -- `as_millis() as u32`
  abbrev pub latency_ms : Bundle → Run W → ℕ
  latency_ms u r = (elapsed u r / 1_000_000) % 2 ^ 32

  abbrev pub slept : Run W → Run W
  slept r = record r { world = b.sleep p.poll r.world }

  -- The balance after, and the outcome.
  abbrev pub reconciled : Bundle → ℕ → Run W → LiveOutcome × Run W
  reconciled u slot r =
      let (answer, w) = b.balance r.world in
      let r' : Run W = record { world = w; calls = balance_read answer ∷ r.calls } in
      (landed u.id slot u.signatures (realized u.before answer) (latency_ms u r'), r')

  abbrev pub asked_status : Bundle → Run W → Run W
  asked_status u r =
      let (answer, w) = b.bundle_status u.id r.world in
      record { world = w; calls = status_read u.id answer ∷ r.calls }

  -- The inner loop, on fuel.
  pub await_confirmed : ℕ → Bundle → ℕ → Run W → Ended W
  unfolding verdict
  await_confirmed zero u slot r = none
  await_confirmed (suc fuel) u slot r =
      let r1 = asked_status u r in
      elim (verdict (b.bundle_status u.id r.world).0) [
        | errored e ↦ some (failed u.id (landed_with_error e) (latency_ms u r1), r1)
        | confirmed ↦ some (reconciled u slot r1)
        | unclear ↦
            let rest = await_confirmed fuel u slot (slept r1) in
            if ltb p.timeout (elapsed u r1) then some (timed_out u.id, r1) else rest
      ]

  abbrev pub asked_inflight : Bundle → Run W → Run W
  asked_inflight u r =
      let (answer, w) = b.inflight u.id r.world in
      record { world = w; calls = polled u.id answer ∷ r.calls }

  -- The outer loop, on fuel.
  pub await_landed : ℕ → Bundle → Run W → Ended W
  unfolding progress await_confirmed
  await_landed zero u r = none
  await_landed (suc fuel) u r =
      let r1 = slept r in
      let r2 = asked_inflight u r1 in
      let poll : Ended W = elim (progress (b.inflight u.id r1.world).0) [
        | landed_at slot ↦ await_confirmed fuel u slot r2
        | gave_up ↦ some (failed u.id reported_failed (latency_ms u r2), r2)
        | waiting ↦ await_landed fuel u r2
      ] in
      if ltb p.timeout (elapsed u r) then some (timed_out u.id, r) else poll

-- The texts and the first signatures of the signed transactions, or why there are none.
pub data Signed : Type 0 where
  signed : List String → List String → Signed
  unsigned : NotSent → Signed

abbrev pub add_signed : String → String → Signed → Signed
add_signed text signature (signed texts signatures) = signed (text ∷ texts) (signature ∷ signatures)
add_signed text signature (unsigned e) = unsigned e

pub sign_all : {Tx : Type 0} → Wallet Tx → List Tx → Signed
sign_all k [] = signed [] []
sign_all k (t ∷ ts) = elim (k.sign t) [
  | err e ↦ unsigned (sign_error e)
  | ok t' ↦ elim (k.encode t') [
    | err e ↦ unsigned (serialize_error e)
    | ok text ↦ add_signed text (k.signature t') (sign_all k ts)
  ]
]

module _ {W : Type 0} (b : LiveBackend W) (p : LiveParams) (permit : SendPermit) where
  abbrev pub refused : NotSent → Run W → Ended W
  refused why r = some (not_sent why, r)

  -- Sends once, and waits.
  pub send : ℕ → String → List String → ℕ → Run W → Ended W
  unfolding await_landed
  send fuel text signatures before r =
      let (answer, w) = b.send_bundle permit (text ∷ []) r.world in
      let r' : Run W = record { world = w; calls = sent (text ∷ []) answer ∷ r.calls } in
      elim answer [
        | err e ↦ refused (rejected e) r'
        | ok id ↦
            await_landed b p fuel
              (record {
                id = id;
                signatures = signatures;
                before = before;
                started = b.clock r.world;
              })
              r'
      ]

  pub check_balance : ℕ → String → List String → Run W → Ended W
  unfolding send
  check_balance fuel text signatures r =
      let (answer, w) = b.balance r.world in
      let r' : Run W = record { world = w; calls = balance_read answer ∷ r.calls } in
      elim answer [
        | err e ↦ refused (balance_unknown e) r'
        | ok before ↦
            if leb p.min_wallet_lamports before
            then send fuel text signatures before r'
            else refused (wallet_low before p.min_wallet_lamports) r'
      ]

  pub simulate : ℕ → String → List String → Run W → Ended W
  unfolding check_balance
  simulate fuel text signatures r =
      let (answer, w) = b.simulate_signed text r.world in
      let r' : Run W = record { world = w; calls = simulated text answer ∷ r.calls } in
      elim answer [
        | err e ↦ refused (simulation_unavailable e) r'
        | ok (some e) ↦ refused (simulation_failed e) r'
        | ok none ↦ check_balance fuel text signatures r'
      ]

  -- Only one transaction can be simulated as it will run.
  pub with_signed : ℕ → Signed → Run W → Ended W
  unfolding simulate
  with_signed fuel (unsigned e) r = refused e r
  with_signed fuel (signed (text ∷ []) signatures) r = simulate fuel text signatures r
  with_signed fuel (signed [] signatures) r = refused several_transactions r
  with_signed fuel (signed (text ∷ text' ∷ texts) signatures) r = refused several_transactions r

  -- `execute_live`, on fuel for its loops.
  unfoldable pub execute_live : {Tx : Type 0} → Wallet Tx → ℕ → ℕ → List Tx → Run W → Ended W
  unfolding sign_all with_signed
  execute_live k fuel last_valid txs r = elim (b.block_height r.world) [
    | none ↦ refused height_unknown r
    | some h ↦
        if ltb ((h + p.blockhash_margin) % 2 ^ 64) last_valid
        then with_signed fuel (sign_all k txs) r
        else refused (blockhash_expiring h last_valid) r
  ]
