-- ===== src/Execution/Examine/Simulated.antt =====
-- `simulate_txs` of crates/execution/src/pipeline.rs: what its verdict says of the answers of the
-- node.
use mobius_searcher.Base.{
  ltb, if◌then◌else◌, ◌%◌, ◌^◌, ℕ, ◌+◌, ◌≡◌, ◌↔◌, refl, sym, ap, ◌∙◌, true, false, ◌&&◌, Option,
  none, some, List, [], ◌∷◌, ◌++◌, length, length-append, ◌==◌, >>=-eq-some, subst, Option-cases,
  arith, All, ◌⊎◌, inl, inr,
}
use mobius_searcher.Base.Results.{Result, ok, err, Result-cases}
use mobius_searcher.Core.Units.{Ppm, cu_limit_with_margin}
use mobius_searcher.Core.Route.{Address}
use mobius_searcher.Core.Model.{TxSim, SimFailure, SimulationResult}
use mobius_searcher.Execution.Decide.{PipelineConfig, Surroundings}
use mobius_searcher.Execution.Simulate.{
  SimulateOutcome, AssembledTx, is_ok, used_units, failure_from, tx_result, tx_sim,
}
use mobius_searcher.Execution.Examine.{
  Candidate, Balances, Simulator, Sims, or_else, failure_at, all_ok, is_none, noted, node_failed,
  simulate_each, summary, simulate_txs,
}

abbrev pub NoError : Result SimulateOutcome → Type 0
NoError (ok out) = out.err ≡ none
NoError (err text) = ⊥

all_ok-snoc : (ts : List TxSim) (t : TxSim) → all_ok (ts ++ (t ∷ [])) ≡ (all_ok ts && t.ok)
all_ok-snoc [] t = ground arith
all_ok-snoc (u ∷ ts) t = ground (arith, all_ok-snoc ts t)

module _ {W Tx : Type 0} (c : PipelineConfig Tx) (s : Surroundings W Tx) (m : Simulator W Tx) where
  -- The answers of the node to the transactions, one after the other.
  abbrev pub answers : List (AssembledTx Tx) → W → List (Result SimulateOutcome)
  answers [] w = []
  answers (a ∷ as') w = let (r, w') = m.simulate a w in r ∷ answers as' w'

  abbrev pub Clean : List (AssembledTx Tx) → W → Type 0
  Clean txs w = All NoError (answers txs w)

  -- What a round adds.
  record Added (out : SimulateOutcome) (w : W) (st st' : Sims W) : Type 0 where
    length_grows : length st'.txs ≡ length st.txs + 1
    all_before : all_ok st'.txs ≡ (all_ok st.txs && is_ok out.err)
    no_failure : is_none st'.failure ≡ (is_none st.failure && is_ok out.err)
    same_world : st'.world ≡ w

  none_before :
      (f : Option SimFailure) (out : SimulateOutcome) (cand : Candidate Tx) (i : ℕ)
      → is_none (or_else f (failure_at cand.job.plan i out)) ≡ (is_none f && is_ok out.err)
  unfolding failure_from
  none_before none out cand i = ground arith
  none_before (some f) out cand i = refl

  tx_sim-ok :
      (i : ℕ) (a : AssembledTx Tx) (out : SimulateOutcome) (margin : Ppm)
      (keys : Option (List Address)) {t : TxSim}
      → tx_sim m.base64 i a out margin keys ≡ some t
      → t.ok ≡ is_ok out.err
  unfolding tx_sim tx_result
  tx_sim-ok i a out margin keys {t} h =
      let (limit, _, e) =
        >>=-eq-some
          (if ltb 0 (used_units out)
            then cu_limit_with_margin (used_units out) margin
            else some a.cu_limit)
          (λ limit. some (tx_result m.base64 i a out keys limit)) h in
      let q : tx_result m.base64 i a out keys limit ≡ t = cc in ap (λ (x : TxSim). x.ok) (sym q)

  noted-Added :
      (cand : Candidate Tx) (margin : Ppm) (i : ℕ) (a : AssembledTx Tx) (out : SimulateOutcome)
      (w : W) (st st' : Sims W)
      → noted c s m cand margin i a out w st ≡ some st'
      → Added out w st st'
  unfolding noted
  noted-Added cand margin i a out w st st' h =
      let keys = if length cand.txs == 1 then m.keys a.tx else none in
      let (t, et, e) = >>=-eq-some (tx_sim m.base64 (i % 2 ^ 8) a out margin keys) _ h in
      let k = tx_sim-ok (i % 2 ^ 8) a out margin keys et in
      let q : st'.txs ≡ st.txs ++ (t ∷ []) = cc in
      let f : st'.failure ≡ or_else st.failure (failure_at cand.job.plan i out) = cc in
      record {
        length_grows = ap length q ∙ length-append st.txs (t ∷ []);
        all_before = ap all_ok q ∙ all_ok-snoc st.txs t ∙ ap (λ b. all_ok st.txs && b) k;
        no_failure = ap is_none f ∙ none_before st.failure out cand i;
        same_world = cc;
      }

  abbrev Ending : List (AssembledTx Tx) → W → Sims W → Sims W → Type 0
  Ending txs w st st' =
      (Clean txs w
        × (is_none st'.failure ≡ true)
        × (all_ok st'.txs ≡ true)
        × (length st'.txs ≡ length st.txs + length txs))
      ⊎ ((¬ Clean txs w) × (is_none st'.failure ≡ false))

  -- A failure stays.
  failure_stays :
      (cand : Candidate Tx) (margin : Ppm) (i : ℕ) (txs : List (AssembledTx Tx)) (st st' : Sims W)
      → is_none st.failure ≡ false
      → simulate_each c s m cand margin i txs st ≡ some st'
      → is_none st'.failure ≡ false
  unfolding simulate_each
  failure_stays cand margin i [] st st' f h =
      let q : st ≡ st' = cc in ap (λ (x : Sims W). is_none x.failure) (sym q) ∙ f
  failure_stays cand margin i (a ∷ as') st st' f h =
      let w = (m.simulate a st.world).1 in
      elim (Result-cases (m.simulate a st.world).0) [
        | inl (out, e) ↦
            let now = rw (e, simulate_each) at h in
            let (st1, n, rest) = >>=-eq-some (noted c s m cand margin i a out w st) _ now in
            let added = noted-Added cand margin i a out w st st1 n in
            failure_stays cand margin (i + 1) as' st1 st'
              (added.no_failure ∙ ap (λ b. b && is_ok out.err) f) rest
        | inr (text, e) ↦
            let now = rw (e, simulate_each) at h in
            let q : node_failed c s m i text w st ≡ st' = cc in
            ap (λ (x : Sims W). is_none x.failure) (sym q)
      ]

  -- From a state without a failure, the loop ends without one exactly if no answer was an error.
  simulate_each-Ending :
      (cand : Candidate Tx) (margin : Ppm) (i : ℕ) (txs : List (AssembledTx Tx)) (st st' : Sims W)
      → is_none st.failure ≡ true
      → all_ok st.txs ≡ true
      → simulate_each c s m cand margin i txs st ≡ some st'
      → Ending txs st.world st st'
  unfolding simulate_each
  simulate_each-Ending cand margin i [] st st' f k h =
      let q : st ≡ st' = cc in
      inl (
        tt,
        ap (λ (x : Sims W). is_none x.failure) (sym q) ∙ f,
        ap (λ (x : Sims W). all_ok x.txs) (sym q) ∙ k,
        ap (λ (x : Sims W). length x.txs) (sym q) ∙ omega arith,
      )
  simulate_each-Ending cand margin i (a ∷ as') st st' f k h =
      let w = (m.simulate a st.world).1 in
      elim (Result-cases (m.simulate a st.world).0) [
        | inl (out, e) ↦
            let now = rw (e, simulate_each) at h in
            let (st1, n, rest) = >>=-eq-some (noted c s m cand margin i a out w st) _ now in
            let added = noted-Added cand margin i a out w st st1 n in
            elim (Option-cases out.err) [
              | inl clean ↦
                  let f1 : is_none st1.failure ≡ true = ground (arith, added.no_failure) in
                  let k1 : all_ok st1.txs ≡ true = ground (arith, added.all_before) in
                  elim (simulate_each-Ending cand margin (i + 1) as' st1 st' f1 k1 rest) [
                    | inl (cl, f', k', l) ↦ inl (
                      (rw e clean, subst (λ v. Clean as' v) added.same_world cl),
                      f',
                      k',
                      omega (arith, added.length_grows, l),
                    )
                    | inr (dirty, f') ↦
                        inr (λ cl. dirty (subst (λ v. Clean as' v) (sym added.same_world) cl.1), f')
                  ]
              | inr (x, bad) ↦
                  let f1 : is_none st1.failure ≡ false = ground (arith, added.no_failure) in
                  inr (
                    λ cl. let h : out.err ≡ none = rw e at (cl.0) in cc,
                    failure_stays cand margin (i + 1) as' st1 st' f1 rest,
                  )
            ]
        | inr (text, e) ↦
            let now = rw (e, simulate_each) at h in
            let q : node_failed c s m i text w st ≡ st' = cc in
            inr (λ cl. rw e at (cl.0), ap (λ (x : Sims W). is_none x.failure) (sym q))
      ]

  -- A simulation is good exactly when the node answered every transaction of the candidate without
  -- an error, one after the other.
  pub simulate_txs-Clean :
      (cand : Candidate Tx) (w w' : W) (sim : SimulationResult) (b : Option Balances)
      → simulate_txs c s m cand w ≡ some (sim, b, w')
      → (sim.ok ≡ true) ↔ Clean cand.txs w
  unfolding simulate_txs
  simulate_txs-Clean cand w w' sim b h =
      let margin = (m.thresholds w).cost_params.cu_margin in
      let start : Sims W = record {
        txs = [];
        failure = none;
        context_slot = none;
        balances = none;
        world = w;
      } in
      let (st, run, e) = >>=-eq-some (simulate_each c s m cand margin 0 cand.txs start) _ h in
      let q : summary c s m cand w st ≡ sim = cc in
      let k = ap (λ (x : SimulationResult). x.ok) q in
      elim (simulate_each-Ending cand margin 0 cand.txs start st refl refl run) [
        | inl (clean, f, a, l) ↦ (λ _. clean, λ _. ground (arith, k))
        | inr (dirty, f) ↦ (λ good. absurd (ground (arith, k)), λ clean. absurd (dirty clean))
      ]
