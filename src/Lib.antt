-- ===== src/Lib.antt =====
-- MOBIUS Searcher: the decisions of a searcher for cyclic arbitrage on Solana.
--
-- The program quotes a cycle of swaps, prices it, simulates it and sends it as one transaction or
-- as a bundle. The crates meet in crates/execution: crates/strategy proposes a plan,
-- crates/telemetry gives or withholds a slot for each request, the quote becomes an Opportunity
-- (crates/core/src/model.rs), crates/core/src/costs.rs says what it costs,
-- crates/core/src/profit.rs what it earns, and crates/risk/src/lib.rs has the last word. The pools
-- that the program prices on its own use crates/market/src/amm/math.rs.
--
-- Base: Boolean tests, lists, integers on native numbers (Base/Int), machine words (Base/Words),
--   bit patterns (Base/Bits), decimal text (Base/Decimal), text as code points (Base/Texts), results
--   with a text (Base/Results).
-- Core: crates/core. Core/Units is units.rs (Ppm, UsdMicros, UsdPrice, the fees), Core/Time is
--   time.rs, Core/Token is token.rs, Core/Route, Core/Model, Core/Records and Core/Labels are
--   model.rs, Core/Costs is costs.rs, Core/Profit is profit.rs. Core/Units/Text is the text of
--   amounts in units.rs, on code points. Core/Layers is the layering of configuration files in
--   crates/core/src/config.rs (`merge`, `diff`, `lift_solana`), with Laws about single keys and
--   RoundTrip about a difference that is merged again. Core/Costs/Consumed is about the
--   costs with measured compute units. Core/Units/Rounding, Core/Costs/Laws and
--   Core/Profit/Guards hold their theorems.
-- Risk: crates/risk/src/lib.rs. The engine's state, limits and kill switch are a record and a call
--   is a function on it. Risk/Approval is about one decision, Risk/History about sequences of
--   calls, Risk/Reason about the reason given; Risk/Limits is `RiskLimits::from_config`.
-- Market: Market/Amm/Math is crates/market/src/amm/math.rs. Wide has the 256-bit product, shift and
--   sum, Division the quotients, Search and Prices the ticks. Market/Amm/Clmm is
--   crates/market/src/amm/clmm.rs, with the loop of the swap in Ends and the amounts in Amounts, and
--   Market/Amm/Dlmm is crates/market/src/amm/dlmm.rs, with the loop of its swap in Ends.
-- Strategy: Strategy/Scheduler is crates/strategy/src/scheduler.rs; the trait that the strategies
--   implement is an interface, and Shares follows the scheduler over any number of calls.
--   Strategy/Plan is plan.rs. Strategy/Strategies is strategies.rs, its trait objects one data type;
--   Cycles is about the plans as cycles and Rotation about their order. Strategy/Pricing is
--   pricing.rs, with Chain for `validate_chain`, Quoted for the opportunities that stay quoted,
--   Shortfall for what the legs may fall short of, and Slippage for the protective slippage.
-- Jito: Jito/Tip is crates/jito/src/tip_policy.rs, with the configuration and the tip floor that it
--   reads. Jito/Permit is the permission to send, in crates/jito/src/client.rs.
-- Execution: Execution/Live is `execute_live` of crates/execution/src/live.rs. The backend, the
--   clock and the wallet are records of functions on a world that the model does not look into;
--   every call is noted with its answer. Answers tells the answers apart, Conduct follows the loops
--   after the sending, Careful the whole run, and Ends the loops against the clock.
--   Execution/Decide is crates/execution/src/pipeline.rs from the risk decision on: `decide`,
--   `paper_fill`, `confirm_then_send` and `send_live`. Gate is about what comes before a sending,
--   Balance about what stays behind, and Ends about the whole call.
--   Execution/Simulate is crates/execution/src/simulate.rs. Execution/Examine is `simulate_txs` and
--   `simulate_job` of pipeline.rs; Simulated is about the rounds of simulations, Examined about the
--   whole call. Execution/Prepare is `finish`, `prepare` and `protect` of pipeline.rs; Safeguarded is
--   about the minimal outputs of the legs and Protected about the opportunity that is returned.
--   Execution/View is crates/execution/src/view.rs, the RuntimeView that the pipeline reads; Sets is
--   about its sets and maps, Current about any calls that write it, Unchecked about the accounts to
--   look up.
-- Storage: Storage/Retention is crates/storage/src/retention.rs, `Store::prune`, over the sessions
--   that the database lists; Spares is about the sessions that it leaves.
-- Telemetry: Telemetry/Window is WindowLimiter of crates/telemetry/src/ratelimit.rs, and
--   Telemetry/Window/Safety follows it over sequences of calls. Telemetry/Health is
--   crates/telemetry/src/health.rs: Apart follows the services over sequences of reports, and Judged
--   is about the state that is shown.
--
-- Integers. u64, u128 and the smaller words are native numbers; i64 and i128 are integers. Where the
-- source wraps, saturates, checks or casts, the definition writes that out. A panic is `none`. Plain
-- sums and products that cannot leave their width are not cut, and each file says which.
-- Instants and durations are numbers of nanoseconds or microseconds, passed in by the caller.
--
-- Fuel. `tick_at_sqrt_price` searches 2 * 443,636 + 1 ticks by halving, and 20 rounds are enough,
-- since 2 ^ 20 is more. `Clmm::swap` has one pass for each tick of the pool and one at the edge,
-- `Dlmm::swap` one for each bin and one more. `div_rem` runs its 256 rounds. `execute_live` polls
-- until its timeout: as many passes as intervals fit in it, and two more. A u64 has 20 digits at
-- most. Nothing else needs fuel.
--
-- Not modelled: network and disk access (the backend of `execute_live` is a parameter, and so is
-- signing), the SQL database (parameters of `prune`), the quotes and the assembly of transactions
-- (parameters of `decide`, of `prepare` and of `simulate_job`), the equality of TOML values (a
-- parameter of `diff`), rendering, floating point (RateLimiter, the views as f64), and the random
-- jitter of a backoff, which is a function given to the model. A lock is
-- held for a whole call of the risk engine, of a limiter or of the view, so these are taken one at a
-- time. `decide` awaits the operator and the backend without a lock: what other tasks do to the risk
-- engine and the kill switch in that time is not modelled.
pub mod Base
pub mod Core
pub mod Risk
pub mod Market
pub mod Telemetry
pub mod Strategy
pub mod Jito
pub mod Execution
pub mod Storage
