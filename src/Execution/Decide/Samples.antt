-- ===== src/Execution/Decide/Samples.antt =====
-- A pipeline in live mode on the backend of the live tests, for the tests about
-- crates/execution/src/pipeline.rs.
use Prim.Native.String.{String}
use mobius_searcher.Base.{some, none, [], ◌∷◌}
use mobius_searcher.Base.Int.{pos}
use mobius_searcher.Core.Model.{Mode}
use mobius_searcher.Risk.Samples.{engine}
use mobius_searcher.Jito.Permit.{granted}
use mobius_searcher.Execution.Live.Samples.{World, node, keys, params, start}
use mobius_searcher.Execution.Decide.{PipelineConfig, Surroundings, Pipe}

abbrev pub config : PipelineConfig String
config = record {
  mode = Mode.live;
  max_quote_age_ms = 1_500;
  paper_equity_lamports = 10_000_000_000;
  live_params = params;
  gate = some (granted, keys);
}

abbrev pub around : Surroundings World String
around = record {
  backend = node;
  now = λ w. pos 1_500_000;
  wallet_lamports = λ age w. some 5_000_000_000;
  sol_price = λ w. none;
  slot = λ w. some 503;
  operator = λ w. (none, w);
  assemble = λ o w. some ("tx" ∷ []);
}

abbrev pub before : Pipe World
before = record {
  risk = engine;
  run = record { world = start; calls = [] };
  paper_net = pos 0;
  shown = [];
}
