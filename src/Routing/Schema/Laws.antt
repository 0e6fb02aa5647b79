-- ===== src/Routing/Schema/Laws.antt =====
-- What an accepted configuration is, without the order of the checks.
use data_pipeline_orchestrat.Base.{
  ◌≤◌, ◌≡◌, refl, ap, arith, String, str_eq, eq_iff, Option, none, some, List, [], ◌∷◌, map, Bool,
  true, false, not, any, All, ltb, Dict, lookup, has_key, at_least, FloatOps, Bool-cases, inl, inr,
  ◌≢◌, ◌↔◌,
}
use data_pipeline_orchestrat.Policy.Config.{
  RawErrorPolicy, ErrorPolicyConfig, PolicyError, Checked, validate,
}
use data_pipeline_orchestrat.Policy.Config
use data_pipeline_orchestrat.Service.Autoscaler.{
  RawAutoscale, AutoscaleConfig, AutoscaleChecked, make_config,
}
use data_pipeline_orchestrat.Service.Autoscaler
use data_pipeline_orchestrat.Routing.Schema.{
  Block, absent, not_a_mapping, mapping, NodeSpec, Catalog, ConfigError, unknown_control_output,
  Fault, ◌then_check◌, require, check_each, count, id_to_node, positive_or_none, is_queue_policy,
  compatible, check_type, check_target, policy_fault, policy_block_fault, autoscale_fault,
  autoscale_block_fault, check_error_policy, check_autoscale, check_health_config,
  check_queue_policy, check_node, check_graph, with_nodes, validate_pipeline_config,
}

then_none : (f g : Fault) → (f then_check g) ≡ none → (f ≡ none) × (g ≡ none)
then_none none g h = (refl, h)
then_none (some e) g h = absurd cc

some-none : (e : ConfigError) → some e ≢ none
some-none e h = cc

not-true : (b : Bool) → not b ≡ true → b ≡ false
not-true true h = cc
not-true false h = refl

require-none : (b : Bool) (e : ConfigError) → require b e ≡ none → b ≡ true
require-none true e h = refl
require-none false e h = absurd cc

module _ {A : Type 0} where
  check_each-none :
      (P : A → Type 0) (check : A → Fault) (xs : List A)
      → ((x : A) → check x ≡ none → P x)
      → check_each check xs ≡ none
      → All P xs
  check_each-none P check [] f h = tt
  check_each-none P check (x ∷ xs) f h =
      let (first, rest) = then_none (check x) (check_each check xs) h in
      (f x first, check_each-none P check xs f rest)

  none-check_each :
      (P : A → Type 0) (check : A → Fault) (xs : List A)
      → ((x : A) → P x → check x ≡ none)
      → All P xs
      → check_each check xs ≡ none
  none-check_each P check [] f h = refl
  none-check_each P check (x ∷ xs) f h = rw (f x h.0) (none-check_each P check xs f h.1)

-- A list in which no id fails a test has no id that fails it at all, or does not have it.
count-any :
    (p : String → Bool) (k : String) (ids : List String)
    → any p ids ≡ false
    → p k ≡ true
    → count k ids ≡ 0
count-any p k [] h e = refl
count-any p k (i ∷ ids) h e = elim (Bool-cases (str_eq i k)) [
  | inl same ↦ ground (arith, ap p ((eq_iff i k).0 same))
  | inr other ↦ ground (arith, count-any p k ids)
]

unique_ids :
    (k : String) (ids : List String) → any (λ i. ltb 1 (count i ids)) ids ≡ false → count k ids ≤ 1
unique_ids k ids h = elim (Bool-cases (ltb 1 (count k ids))) [
  | inl more ↦ omega (arith, count-any (λ i. ltb 1 (count i ids)) k ids h more)
  | inr e ↦ ground arith
]

module _ {F K : Type 0} (ops : FloatOps F) (catalog : Catalog K) where
  -- An output names a node, which accepts what this one emits.
  abbrev pub Resolves : NodeSpec F → Option (NodeSpec F) → Type 0
  Resolves node none = ⊥
  Resolves node (some target) = compatible ops catalog node target ≡ true

  abbrev pub PolicyOk : Block (RawErrorPolicy F) → Type 0
  PolicyOk absent = Unit
  PolicyOk not_a_mapping = ⊥
  PolicyOk (mapping raw) = (c : ErrorPolicyConfig F) × (validate ops raw ≡ Config.accepted c)

  abbrev pub AutoscaleOk : Block (RawAutoscale F) → Type 0
  AutoscaleOk absent = Unit
  AutoscaleOk not_a_mapping = ⊥
  AutoscaleOk (mapping raw) =
      (c : AutoscaleConfig F) × (make_config ops raw ≡ Autoscaler.accepted c)

  -- One node among those that `by_id` finds.
  pub record NodeOk (by_id : Dict (NodeSpec F)) (node : NodeSpec F) : Type 0 where
    pub outputs : All (λ name. Resolves node (lookup name by_id)) node.outputs
    pub control_outputs : All (λ name. has_key name by_id ≡ true) node.control_outputs
    pub policy : PolicyOk node.error_policy
    pub replicas : at_least 1 node.replicas ≡ true
    pub autoscale : AutoscaleOk node.autoscale
    pub timeout : positive_or_none ops node.health_timeout ≡ true
    pub interval : positive_or_none ops node.health_check_interval ≡ true
    pub queue_policy : is_queue_policy node.queue_policy ≡ true
    pub queue_size : at_least 1 node.message_queue_size ≡ true

  abbrev pub TypeOk : NodeSpec F → Type 0
  TypeOk node =
      (catalog.is_known node.type_ ≡ true) × (not (catalog.misses_extra node.type_) ≡ true)

  pub record Valid (nodes : List (NodeSpec F)) : Type 0 where
    pub unique : (k : String) → count k (map (λ n. n.id) nodes) ≤ 1
    pub types : All TypeOk nodes
    pub edges : All (NodeOk (id_to_node nodes [])) nodes

  target-Resolves :
      (node : NodeSpec F) (name : String) (found : Option (NodeSpec F))
      → check_target ops catalog node name found ≡ none
      → Resolves node found
  target-Resolves node name none h = absurd (some-none _ h)
  target-Resolves node name (some target) h = require-none _ _ h

  type-Ok : (node : NodeSpec F) → check_type ops catalog node ≡ none → TypeOk node
  unfolding check_type
  type-Ok node h =
      let (known, extra) = then_none (require _ _) (require _ _) h in
      (require-none _ _ known, require-none _ _ extra)

  policy-Ok :
      (node : NodeSpec F) → check_error_policy ops catalog node ≡ none → PolicyOk node.error_policy
  unfolding check_error_policy
  policy-Ok node h = by_block node.error_policy h
    where
      by_check :
          (c : Checked (ErrorPolicyConfig F)) (raw : RawErrorPolicy F)
          → validate ops raw ≡ c
          → policy_fault ops catalog node.id c ≡ none
          → PolicyOk (mapping raw)
      by_check (Config.accepted c) raw v g = (c, v)
      by_check (Config.refused e) raw v g = absurd (some-none _ g)

      by_block :
          (b : Block (RawErrorPolicy F))
          → policy_block_fault ops catalog node.id b ≡ none
          → PolicyOk b
      by_block absent g = tt
      by_block not_a_mapping g = some-none _ g
      by_block (mapping raw) g = by_check (validate ops raw) raw refl g

  autoscale-Ok :
      (node : NodeSpec F) → check_autoscale ops catalog node ≡ none → AutoscaleOk node.autoscale
  unfolding check_autoscale
  autoscale-Ok node h = by_block node.autoscale h
    where
      by_check :
          (c : AutoscaleChecked F) (raw : RawAutoscale F)
          → make_config ops raw ≡ c
          → autoscale_fault ops catalog node.id c ≡ none
          → AutoscaleOk (mapping raw)
      by_check (Autoscaler.accepted c) raw v g = (c, v)
      by_check (Autoscaler.refused e) raw v g = absurd (some-none _ g)

      by_block :
          (b : Block (RawAutoscale F))
          → autoscale_block_fault ops catalog node.id b ≡ none
          → AutoscaleOk b
      by_block absent g = tt
      by_block not_a_mapping g = some-none _ g
      by_block (mapping raw) g = by_check (make_config ops raw) raw refl g

  node-Ok :
      (by_id : Dict (NodeSpec F)) (node : NodeSpec F)
      → check_node ops catalog by_id node ≡ none
      → NodeOk by_id node
  unfolding check_node check_health_config check_queue_policy
  node-Ok by_id node h =
      let (outs, h1) = then_none (check_each _ node.outputs) _ h in
      let (controls, h2) = then_none (check_each _ node.control_outputs) _ h1 in
      let (policy, h3) = then_none (check_error_policy ops catalog node) _ h2 in
      let (replicas, h4) = then_none (require _ _) _ h3 in
      let (scale, h5) = then_none (check_autoscale ops catalog node) _ h4 in
      let (health, queue) = then_none (check_health_config ops catalog node) _ h5 in
      let (timeout, interval) = then_none (require _ _) _ health in
      let (kind, size) = then_none (require _ _) _ queue in
      record {
        outputs = check_each-none _ _ node.outputs (λ name. target-Resolves node name _) outs;
        control_outputs =
            check_each-none _ _ node.control_outputs (λ name. require-none _ _) controls;
        policy = policy-Ok node policy;
        replicas = require-none _ _ replicas;
        autoscale = autoscale-Ok node scale;
        timeout = require-none _ _ timeout;
        interval = require-none _ _ interval;
        queue_policy = require-none _ _ kind;
        queue_size = require-none _ _ size;
      }

  check_graph-Valid :
      (nodes : List (NodeSpec F)) → check_graph ops catalog nodes ≡ none → Valid nodes
  unfolding check_graph
  check_graph-Valid nodes h =
      let ids : List String = map (λ n. n.id) nodes in
      let (once, h1) = then_none (require _ _) _ h in
      let (types, edges) = then_none (check_each _ nodes) _ h1 in
      record {
        unique = λ k. unique_ids k ids (not-true _ (require-none _ _ once));
        types = check_each-none _ _ nodes type-Ok types;
        edges = check_each-none _ _ nodes (node-Ok (id_to_node nodes [])) edges;
      }

  type-accepted : (node : NodeSpec F) → TypeOk node → check_type ops catalog node ≡ none
  unfolding check_type
  type-accepted node h = rw (h.0, h.1) refl

  target-accepted :
      (node : NodeSpec F) (name : String) (found : Option (NodeSpec F))
      → Resolves node found
      → check_target ops catalog node name found ≡ none
  target-accepted node name none h = absurd h
  target-accepted node name (some target) h = rw h refl

  policy-accepted :
      (id : String) (b : Block (RawErrorPolicy F))
      → PolicyOk b
      → policy_block_fault ops catalog id b ≡ none
  policy-accepted id absent h = refl
  policy-accepted id not_a_mapping h = absurd h
  policy-accepted id (mapping raw) h = ap (policy_fault ops catalog id) h.1

  autoscale-accepted :
      (id : String) (b : Block (RawAutoscale F))
      → AutoscaleOk b
      → autoscale_block_fault ops catalog id b ≡ none
  autoscale-accepted id absent h = refl
  autoscale-accepted id not_a_mapping h = absurd h
  autoscale-accepted id (mapping raw) h = ap (autoscale_fault ops catalog id) h.1

  node-accepted :
      (by_id : Dict (NodeSpec F)) (node : NodeSpec F)
      → NodeOk by_id node
      → check_node ops catalog by_id node ≡ none
  unfolding check_node check_health_config check_queue_policy check_error_policy check_autoscale
  node-accepted by_id node h =
      let outs =
        none-check_each (λ name. Resolves node (lookup name by_id))
          (λ name. check_target ops catalog node name (lookup name by_id)) node.outputs
          (λ name. target-accepted node name _) h.outputs in
      let controls =
        none-check_each (λ name. has_key name by_id ≡ true)
          (λ name. require (has_key name by_id) (unknown_control_output node.id name))
          node.control_outputs
          (λ name e. ap (λ b. require b (unknown_control_output node.id name)) e)
          h.control_outputs in
      rw
        (
          outs,
          controls,
          policy-accepted node.id node.error_policy h.policy,
          h.replicas,
          autoscale-accepted node.id node.autoscale h.autoscale,
          h.timeout,
          h.interval,
          h.queue_policy,
          h.queue_size,
        )
        refl

  none_above :
      (ids some_ids : List String)
      → ((k : String) → count k ids ≤ 1)
      → any (λ i. ltb 1 (count i ids)) some_ids ≡ false
  none_above ids [] h = refl
  none_above ids (i ∷ rest) h = ground (arith, h i, none_above ids rest h)

  Valid-accepted : (nodes : List (NodeSpec F)) → Valid nodes → check_graph ops catalog nodes ≡ none
  unfolding check_graph
  Valid-accepted nodes h =
      rw
        (
          none_above (map (λ n. n.id) nodes) (map (λ n. n.id) nodes) h.unique,
          none-check_each TypeOk (check_type ops catalog) nodes type-accepted h.types,
        )
        (none-check_each _ _ nodes (node-accepted (id_to_node nodes [])) h.edges)

  -- A list of nodes passes the checks if and only if its ids are unique, its types are known and
  -- miss no extra, every output names a node that accepts a payload of the sender, every control
  -- output names a node, and every node has a valid error policy, autoscale block, replica count,
  -- health period and queue setting, whatever the order of the checks.
  pub validate-Valid :
      (nodes : List (NodeSpec F))
      → (validate_pipeline_config ops catalog (with_nodes nodes) ≡ none) ↔ Valid nodes
  unfolding validate_pipeline_config
  validate-Valid nodes = (check_graph-Valid nodes, Valid-accepted nodes)
