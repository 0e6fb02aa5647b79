-- ===== src/Routing/Pipeline/Laws.antt =====
-- How a pipeline ends, and what its replicas are called.
use data_pipeline_orchestrat.Base.{
  ℕ, zero, suc, ◌<◌, ◌≡◌, refl, arith, List, [], ◌∷◌, ◌++◌, Bool, true, false, returned,
  if◌then◌else◌,
}
use data_pipeline_orchestrat.Routing.Factory.{BuiltNode}
use data_pipeline_orchestrat.Routing.Pipeline.{
  Host, woke, build_nodes, for_each, any_failed, watch, run_pipeline,
}

if-same : {A : Type 0} (b : Bool) (a : A) → (if b then a else a) ≡ a
if-same true a = refl
if-same false a = refl

module _ {W E B F V N : Type 0} (host : Host W E B F V N) where
  open host use {start_node, failed, stop_node, stop_event_set, nap}

  -- This many rounds of the watch find nothing, and lead from `w` to `w'`.
  abbrev pub Quiet : ℕ → List (BuiltNode F V N) → W → W → Type 0
  Quiet zero nodes w w' = w ≡ w'
  Quiet (suc k) nodes w w' =
      (stop_event_set w ≡ false)
      × (any_failed host nodes w ≡ false)
      × ((w1 : W) × (nap w ≡ (woke, w1)) × Quiet k nodes w1 w')

  watch-failed :
      (k rounds : ℕ) (nodes : List (BuiltNode F V N)) (w w' : W)
      → k < rounds
      → Quiet k nodes w w'
      → any_failed host nodes w' ≡ true
      → watch host rounds nodes w ≡ (woke, w')
  unfolding watch
  watch-failed k zero nodes w w' more quiet broken = absurd (omega (arith, more))
  watch-failed zero (suc n) nodes w w' more same broken =
      rw (same, broken) (if-same (stop_event_set w') ((woke, w')))
  watch-failed (suc k) (suc n) nodes w w' more (on, fine, (w1, napped, quiet)) broken =
      rw (on, fine, napped) (watch-failed k n nodes w1 w' (omega (arith, more)) quiet broken)

  fails-any_failed :
      (nodes : List (BuiltNode F V N)) (bad : BuiltNode F V N) (rest : List (BuiltNode F V N))
      (w : W)
      → failed bad.instance_of w ≡ true
      → any_failed host (nodes ++ bad ∷ rest) w ≡ true
  unfolding any_failed
  fails-any_failed [] bad rest w broken = rw broken refl
  fails-any_failed (node ∷ nodes) bad rest w broken =
      rw (fails-any_failed nodes bad rest w broken) (if-same (failed node.instance_of w) true)

  -- A node that has failed ends its pipeline. Where the nodes are built and started, the watch finds
  -- nothing for `k` rounds, and then one of the nodes has failed, the pipeline ends at the next
  -- round, however many it may take, with the stop of every node, in their order.
  pub failure_stops_pipeline :
      (k rounds : ℕ) (entries : List E) (nodes rest : List (BuiltNode F V N))
      (bad : BuiltNode F V N) (w w1 w2 w' : W)
      → k < rounds
      → build_nodes host entries w ≡ (returned (nodes ++ bad ∷ rest), w1)
      → for_each host start_node (nodes ++ bad ∷ rest) w1 ≡ (returned tt, w2)
      → Quiet k (nodes ++ bad ∷ rest) w2 w'
      → failed bad.instance_of w' ≡ true
      → run_pipeline host rounds entries w ≡ for_each host stop_node (nodes ++ bad ∷ rest) w'
  unfolding run_pipeline
  failure_stops_pipeline k rounds entries nodes rest bad w w1 w2 w' more built started quiet
        broken =
      rw
        (
          built,
          started,
          watch-failed k rounds (nodes ++ bad ∷ rest) w2 w' more quiet
              (fails-any_failed nodes bad rest w' broken),
        )
        refl
