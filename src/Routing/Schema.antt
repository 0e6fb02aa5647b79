-- ===== src/Routing/Schema.antt =====
-- The validation of a pipeline's configuration, core/utils/config_schema.py. pydantic has typed the
-- fields of a node and filled in their defaults; a check returns the fault that it raises. The
-- catalogue of node classes, whose import may fail, is a parameter.
pub mod Laws
pub mod Examples
use data_pipeline_orchestrat.Base.{
  ℕ, zero, suc, String, str_eq, Option, none, some, List, [], ◌∷◌, ◌++◌, map, Bool, true, false,
  not, ◌||◌, ◌&&◌, any, ltb, Dict, lookup, assign, has_key, ℤ, at_least, FloatOps, if◌then◌else◌,
  is_some,
}
use data_pipeline_orchestrat.Policy.Config.{
  RawErrorPolicy, ErrorPolicyConfig, PolicyError, Checked, validate,
}
use data_pipeline_orchestrat.Policy.Config
use data_pipeline_orchestrat.Service.Autoscaler.{
  RawAutoscale, AutoscaleChecked, AutoscaleError, make_config,
}
use data_pipeline_orchestrat.Service.Autoscaler

-- getattr(node, key, None) of an extra key
pub data Block (A : Type 0) : Type 0 where
  absent : Block A
  not_a_mapping : Block A
  mapping : A → Block A

pub record NodeSpec (F : Type 0) : Type 0 where
  pub id : String
  pub type_ : String
  pub outputs : List String
  pub control_outputs : List String
  pub replicas : ℤ
  pub health_timeout : Option F
  pub health_check_interval : Option F
  pub message_queue_size : ℤ
  pub queue_policy : String
  pub error_policy : Block (RawErrorPolicy F)
  pub autoscale : Block (RawAutoscale F)

-- What NodeFactory knows of a type: whether NODE_IMPORTS names it, whether an optional extra that
-- its class needs is missing, and the payload classes that it emits and accepts.
pub record Catalog (K : Type 0) : Type 0 where
  pub is_known : String → Bool
  pub misses_extra : String → Bool
  pub emits : String → List K
  pub accepts : String → List K
  pub issubclass : K → K → Bool

-- The faults, each with the ids that the message names.
pub data ConfigError : Type 0 where
  config_not_mapping nodes_missing duplicate_ids : ConfigError
  unknown_type missing_extra : String → ConfigError
  unknown_output incompatible unknown_control_output : String → String → ConfigError
  policy_not_mapping autoscale_not_mapping : String → ConfigError
  invalid_policy : String → PolicyError → ConfigError
  invalid_autoscale : String → AutoscaleError → ConfigError
  few_replicas bad_health_timeout bad_health_interval bad_queue_policy small_queue :
      String → ConfigError

abbrev pub Fault : Type 0
Fault = Option ConfigError

-- The next statement, if this one raises nothing.
infixr 6 ◌then_check◌
abbrev pub ◌then_check◌ : Fault → Fault → Fault
none then_check g = g
(some e) then_check g = some e

-- if not ok: raise fault
abbrev pub require : Bool → ConfigError → Fault
require true e = none
require false e = some e

-- for x in xs: check(x)
abbrev pub check_each : {A : Type 0} → (A → Fault) → List A → Fault
check_each check [] = none
check_each check (x ∷ xs) = check x then_check check_each check xs

-- ids.count(k)
abbrev pub count : String → List String → ℕ
count k [] = 0
count k (i ∷ ids) = let n = count k ids in if str_eq i k then suc n else n

module _ {F : Type 0} where
  -- {n.id: n for n in nodes}
  pub id_to_node : List (NodeSpec F) → Dict (NodeSpec F) → Dict (NodeSpec F)
  id_to_node [] d = d
  id_to_node (n ∷ nodes) d = id_to_node nodes (assign n.id n d)

abbrev pub positive_or_none : {F : Type 0} → FloatOps F → Option F → Bool
positive_or_none ops none = true
positive_or_none ops (some x) = not (ops.leb_F x (ops.literal 0 0))

-- QueuePolicy's values
abbrev pub is_queue_policy : String → Bool
is_queue_policy s = str_eq s "block" || str_eq s "drop_oldest" || str_eq s "conflate"

module _ {F K : Type 0} (ops : FloatOps F) (catalog : Catalog K) where
  open catalog use {is_known, misses_extra, emits, accepts, issubclass}

  pub compatible : NodeSpec F → NodeSpec F → Bool
  compatible node target = any (λ e. any (issubclass e) (accepts target.type_)) (emits node.type_)

  pub check_type : NodeSpec F → Fault
  check_type node =
      require (is_known node.type_) (unknown_type node.id)
      then_check require (not (misses_extra node.type_)) (missing_extra node.id)

  abbrev pub check_target : NodeSpec F → String → Option (NodeSpec F) → Fault
  check_target node name none = some (unknown_output node.id name)
  check_target node name (some target) =
      require (compatible node target) (incompatible node.id target.id)

  abbrev pub policy_fault : String → Checked (ErrorPolicyConfig F) → Fault
  policy_fault id (Config.accepted c) = none
  policy_fault id (Config.refused e) = some (invalid_policy id e)

  abbrev pub policy_block_fault : String → Block (RawErrorPolicy F) → Fault
  policy_block_fault id absent = none
  policy_block_fault id not_a_mapping = some (policy_not_mapping id)
  policy_block_fault id (mapping raw) = policy_fault id (validate ops raw)

  pub check_error_policy : NodeSpec F → Fault
  check_error_policy node = policy_block_fault node.id node.error_policy

  abbrev pub autoscale_fault : String → AutoscaleChecked F → Fault
  autoscale_fault id (Autoscaler.accepted c) = none
  autoscale_fault id (Autoscaler.refused e) = some (invalid_autoscale id e)

  abbrev pub autoscale_block_fault : String → Block (RawAutoscale F) → Fault
  autoscale_block_fault id absent = none
  autoscale_block_fault id not_a_mapping = some (autoscale_not_mapping id)
  autoscale_block_fault id (mapping raw) = autoscale_fault id (make_config ops raw)

  pub check_autoscale : NodeSpec F → Fault
  check_autoscale node = autoscale_block_fault node.id node.autoscale

  pub check_health_config : NodeSpec F → Fault
  check_health_config node =
      require (positive_or_none ops node.health_timeout) (bad_health_timeout node.id)
      then_check require (positive_or_none ops node.health_check_interval)
          (bad_health_interval node.id)

  pub check_queue_policy : NodeSpec F → Fault
  check_queue_policy node =
      require (is_queue_policy node.queue_policy) (bad_queue_policy node.id)
      then_check require (at_least 1 node.message_queue_size) (small_queue node.id)

  -- The second loop of `_check_graph`, for one node.
  pub check_node : Dict (NodeSpec F) → NodeSpec F → Fault
  unfolding check_error_policy check_autoscale check_health_config check_queue_policy
  check_node by_id node =
      check_each (λ name. check_target node name (lookup name by_id)) node.outputs
      then_check check_each
          (λ name. require (has_key name by_id) (unknown_control_output node.id name))
          node.control_outputs
      then_check check_error_policy node
      then_check require (at_least 1 node.replicas) (few_replicas node.id)
      then_check check_autoscale node
      then_check check_health_config node
      then_check check_queue_policy node

  pub check_graph : List (NodeSpec F) → Fault
  unfolding check_type check_node id_to_node
  check_graph nodes =
      let ids = map (λ n. n.id) nodes in
      require (not (any (λ i. ltb 1 (count i ids)) ids)) duplicate_ids
      then_check check_each check_type nodes
      then_check check_each (check_node (id_to_node nodes [])) nodes

-- The argument of `validate_pipeline_config`: no mapping, one without the key `nodes`, or one with
-- it.
pub data RawConfig (F : Type 0) : Type 0 where
  no_mapping without_nodes : RawConfig F
  with_nodes : List (NodeSpec F) → RawConfig F

module _ {F K : Type 0} (ops : FloatOps F) (catalog : Catalog K) where
  -- The fault of the ConfigError, or none where the parsed model is returned.
  pub validate_pipeline_config : RawConfig F → Fault
  unfolding check_graph
  validate_pipeline_config no_mapping = some config_not_mapping
  validate_pipeline_config without_nodes = some nodes_missing
  validate_pipeline_config (with_nodes nodes) = check_graph ops catalog nodes
