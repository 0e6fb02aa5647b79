-- ===== src/Routing/Pipeline/Examples.antt =====
-- Two replicas of one node, which have failed after one nap of the watch.
use data_pipeline_orchestrat.Base.{
  ℕ, ◌≡◌, refl, arith, String, none, some, List, [], ◌∷◌, true, false, ◌==◌, leb, length, Dict,
  lookup, if◌then◌else◌, returned,
}
use data_pipeline_orchestrat.Policy.Config.{skip, validate, with_defaults, check_consistency}
use data_pipeline_orchestrat.Policy.Execute.{ErrorPolicy, new_policy, no_stats}
use data_pipeline_orchestrat.Node.Fixtures.{naturals}
use data_pipeline_orchestrat.Routing.Factory.{
  Classes, BuiltNode, create, attach, resolve, arguments, policy_from_config,
}
use data_pipeline_orchestrat.Routing.Pipeline.{
  Host, woke, build_nodes, build_replicas, rename, for_each, any_failed, run_pipeline,
}
use data_pipeline_orchestrat.Routing.Pipeline.Laws.{failure_stops_pipeline}

-- The world is the log of what was done, the last thing first.
abbrev classes : Classes (List String) ℕ String String String
classes = record {
  floats = naturals;
  load_class = λ path name w. (returned name, w);
  from_config = λ name settings w. (returned name, w);
  text_of = λ v. some v;
  is_none = λ v. false;
  policy_block = λ v. none;
}

abbrev host : Host (List String) (Dict String) String ℕ String String
host = record {
  mailboxes = ("draw", "first" ∷ "second" ∷ []) ∷ [];
  create_node = create classes;
  entry_id = λ entry. elim (lookup "id" entry) [ none ↦ "" | some v ↦ v ];
  suffixed = λ s i. if i == 0 then "draw#0" else "draw#1";
  start_node = λ n w. (returned tt, w);
  failed = λ n w. leb 1 (length w);
  stop_node = λ n w. (returned tt, "stop" ∷ w);
  stop_event_set = λ w. false;
  nap = λ w. (woke, "nap" ∷ w);
}

abbrev entry : Dict String
entry = ("id", "draw") ∷ ("type", "DrawNode") ∷ ("replicas", "2") ∷ []

abbrev policy : ErrorPolicy ℕ
policy = record {
  config = record {
    on_error = skip;
    max_retries = 0;
    initial_backoff = 1;
    max_backoff = 50;
    backoff_multiplier = 20;
    jitter = true;
    dead_letter_dir = none;
    store_payload = false;
  };
  node_id = "draw";
  stats = no_stats;
  sink = none;
}

abbrev replica : String → BuiltNode ℕ String String
replica id = record {
  instance_of = "DrawNode";
  id = id;
  error_policy = policy;
  health_timeout = none;
  health_check_interval = none;
}

failure_stops_pipeline_example :
    run_pipeline host 5 (entry ∷ []) [] ≡ (returned tt, "stop" ∷ "stop" ∷ "nap" ∷ [])
unfolding build_nodes build_replicas rename create attach resolve arguments policy_from_config
    validate with_defaults check_consistency new_policy lookup for_each any_failed
failure_stops_pipeline_example =
    failure_stops_pipeline host 1 5 (entry ∷ []) [] (replica "draw#1" ∷ []) (replica "draw#0") [] []
      [] ("nap" ∷ []) (omega arith) refl refl (refl, refl, ("nap" ∷ [], refl, refl)) refl
