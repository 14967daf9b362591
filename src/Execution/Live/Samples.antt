-- ===== src/Execution/Live/Samples.antt =====
-- A backend that lands the bundle on the second poll, for the tests about
-- crates/execution/src/live.rs: the world is the time and the answers to come.
use Prim.Native.String.{String}
use mobius_searcher.Base.{ℕ, ◌+◌, ◌≤◌, Option, none, some, List, [], ◌∷◌, arith}
use mobius_searcher.Base.Int.{pos}
use mobius_searcher.Base.Results.{Result, ok}
use mobius_searcher.Jito.Permit.{InflightStatus}
use mobius_searcher.Execution.Live.{LiveBackend, LiveParams, Wallet, LiveOutcome, landed, Call, Run}
use mobius_searcher.Execution.Live.Ends.{Timed}

pub record World : Type 0 where
  pub time : ℕ
  pub answers : List (Option InflightStatus)
  pub lamports : ℕ

abbrev pub next_answer : World → Result (Option InflightStatus) × World
next_answer w = elim w.answers [ [] ↦ (ok none, w) | a ∷ as' ↦ (ok a, record w { answers = as' }) ]

abbrev pub node : LiveBackend World
node = record {
  simulate_signed = λ text w. (ok none, w);
  send_bundle = λ permit texts w. (ok "bundle-1", record w { lamports = w.lamports + 7_000 });
  inflight = λ id w. next_answer w;
  balance = λ w. (ok w.lamports, w);
  bundle_status = λ id w. (ok (some (some "confirmed", none)), w);
  block_height = λ w. some 900;
  clock = λ w. w.time;
  sleep = λ d w. record w { time = w.time + d };
}

abbrev pub keys : Wallet String
keys = record { sign = λ t. ok t; signature = λ t. "sig-1"; encode = λ t. ok t }

abbrev pub params : LiveParams
params = record {
  min_wallet_lamports = 50_000_000;
  blockhash_margin = 20;
  poll = 1_000_000;
  timeout = 5_000_000;
}

abbrev pub start : World
start = record {
  time = 10;
  answers = some InflightStatus.invalid ∷ some (InflightStatus.landed 77) ∷ [];
  lamports = 60_000_000;
}

abbrev pub end : Run World
end = record {
  world = record { time = 2_000_010; answers = []; lamports = 60_007_000 };
  calls =
      Call.balance_read (ok 60_007_000)
      ∷ Call.status_read "bundle-1" (ok (some (some "confirmed", none)))
      ∷ Call.polled "bundle-1" (ok (some (InflightStatus.landed 77)))
      ∷ Call.polled "bundle-1" (ok (some InflightStatus.invalid))
      ∷ Call.sent ("tx" ∷ []) (ok "bundle-1")
      ∷ Call.balance_read (ok 60_000_000)
      ∷ Call.simulated "tx" (ok none)
      ∷ [];
}

abbrev pub outcome : LiveOutcome
outcome = landed "bundle-1" 77 ("sig-1" ∷ []) (some (pos 7_000)) 2

keeps_time : (w : World) → w.time ≤ (next_answer w).1.time
keeps_time w = ground arith

pub timed : Timed node
timed = record {
  sleeps = λ d w. omega arith;
  sending = λ permit texts w. omega arith;
  polling = λ id w. keeps_time w;
  reading = λ id w. omega arith;
}
