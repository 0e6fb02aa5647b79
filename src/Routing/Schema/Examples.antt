-- ===== src/Routing/Schema/Examples.antt =====
-- A configuration of two nodes.
use data_pipeline_orchestrat.Base.{
  ℕ, ◌+◌, ◌*◌, ◌≡◌, ◌↔◌, String, none, some, List, [], ◌∷◌, true, false, ltb, leb, pos, FloatOps,
}
use data_pipeline_orchestrat.Routing.Schema.{
  NodeSpec, Catalog, absent, with_nodes, validate_pipeline_config,
}
use data_pipeline_orchestrat.Routing.Schema.Laws.{Valid, validate-Valid}

abbrev naturals : FloatOps ℕ
naturals = record {
  literal = λ digits places. digits;
  ltb_F = ltb;
  leb_F = leb;
  add_F = λ x y. x + y;
  mul_F = λ x y. x * y;
  pow_F = λ x n. some (x * n);
  half = λ x. x;
}

abbrev catalog : Catalog ℕ
catalog = record {
  is_known = λ type_. true;
  misses_extra = λ type_. false;
  emits = λ type_. 1 ∷ [];
  accepts = λ type_. 1 ∷ 2 ∷ [];
  issubclass = λ e a. leb e a;
}

abbrev node : String → List String → NodeSpec ℕ
node id outputs = record {
  id = id;
  type_ = "TTSNode";
  outputs = outputs;
  control_outputs = [];
  replicas = pos 1;
  health_timeout = none;
  health_check_interval = some 3;
  message_queue_size = pos 20;
  queue_policy = "block";
  error_policy = absent;
  autoscale = absent;
}

abbrev nodes : List (NodeSpec ℕ)
nodes = node "asr" ("tts" ∷ []) ∷ node "tts" [] ∷ []

validate-Valid_example :
    (validate_pipeline_config naturals catalog (with_nodes nodes) ≡ none)
    ↔ Valid naturals catalog nodes
validate-Valid_example = validate-Valid naturals catalog nodes
