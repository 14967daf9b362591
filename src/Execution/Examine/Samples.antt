-- ===== src/Execution/Examine/Samples.antt =====
-- A node that answers every simulation without an error, for the tests about
-- crates/execution/src/pipeline.rs.
use Prim.Native.String.{String}
use mobius_searcher.Base.{true, some, none, [], ◌∷◌}
use mobius_searcher.Base.Int.{pos}
use mobius_searcher.Base.Results.{ok}
use mobius_searcher.Core.Records.{default_params, default_guards}
use mobius_searcher.Jito.Tip.{TipPolicyKind}
use mobius_searcher.Execution.Live.Samples.{World}
use mobius_searcher.Execution.Simulate.{SimulateOutcome, AssembledTx}
use mobius_searcher.Execution.Examine.{Simulator}

abbrev pub outcome : SimulateOutcome
outcome = record {
  context_slot = some 503;
  err = none;
  logs = "Program return: JUP6LkbZbjS1jKKwapdHNy74zcZ3tLUZoi5QNyVTaV4 f4OwAAAAAAA=" ∷ [];
  units_consumed = some 180_000;
  fee = some 5_000;
  pre_balances = some (5_000_000_000 ∷ []);
  post_balances = some (5_001_000_000 ∷ []);
}

abbrev pub simulator : Simulator World String
simulator = record {
  simulate = λ a w. (ok outcome, w);
  keys = λ tx. none;
  base64 = λ text. some (127 ∷ 131 ∷ 176 ∷ 0 ∷ 0 ∷ 0 ∷ 0 ∷ 0 ∷ []);
  sol_equivalent_delta = λ cand b. some (pos 1_000_000);
  elapsed_ms = λ w w'. 90;
  thresholds = λ w. record {
    guards = record default_guards { min_profit_usd = pos 0 };
    cost_params = default_params;
    protect_min_out = true;
  };
  tip_floor = λ w. none;
  tip_policy = record {
    kind = TipPolicyKind.fixed;
    fixed_lamports = 10_000;
    percentile = "p50";
    profit_share_bps = 0;
    min_lamports = 1_000;
    max_lamports = 100_000;
  };
  has_taker = true;
  base_decimals = 9;
}

abbrev pub tx : AssembledTx String
tx = record {
  tx = "tx";
  wire = [];
  size = 900;
  accounts = 30;
  cu_limit = 1_400_000;
  cu_price_micro = 0;
  tip_lamports = 10_000;
  creates_atas = [];
  ata_create_ixs = 0;
}
