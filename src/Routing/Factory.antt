-- ===== src/Routing/Factory.antt =====
-- core/node/node_factory.py: a node from its entry in the configuration. What the classes of the nodes
-- do is a parameter, as are the import of a module and pydantic's reading of a policy block. The
-- id of a node is a string.
pub mod Laws
use data_pipeline_orchestrat.Base.{
  String, Option, none, some, List, [], ◌∷◌, Bool, true, false, Dict, lookup, assign, delete,
  FloatOps, value_error, other, Outcome, returned, raised, Act, and_then, if◌then◌else◌,
}
use data_pipeline_orchestrat.Policy.Config.{
  RawErrorPolicy, ErrorPolicyConfig, Checked, accepted, refused, validate,
}
use data_pipeline_orchestrat.Policy.Execute.{ErrorPolicy, new_policy}

-- NODE_IMPORTS
abbrev pub node_imports : Dict (String × String)
node_imports =
    ("FolderImageNode", ("neudc.core.node.readers.image_reader", "FolderImageNode"))
    ∷ ("AudioReaderNode", ("neudc.core.node.readers.audio_reader", "AudioReaderNode"))
    ∷ ("SaveImageNode", ("neudc.core.node.broadcast.image_saver", "SaveImageNode"))
    ∷ ("ResizeProcessNode", ("neudc.core.node.processors.resize_process_node", "ResizeProcessNode"))
    ∷ ("ResizeNode", ("neudc.core.node.processors.resize_node", "ResizeNode"))
    ∷ ("ProcessDetInference", ("neudc.core.node.model.proc_det_inference", "ProcessDetInference"))
    ∷ ("DrawNode", ("neudc.core.node.processors.draw_node", "DrawNode"))
    ∷ ("HashNode", ("neudc.core.node.filters.hash_node", "HashNode"))
    ∷ ("VadNode", ("neudc.core.node.filters.vad_node", "VadNode"))
    ∷ (
      "ProcessBlurInference",
      ("neudc.core.node.model.proc_blur_inference", "ProcessBlurInference"),
    )
    ∷ (
      "ProcessEmbeddingInference",
      ("neudc.core.node.model.proc_embedding_inference", "ProcessEmbeddingInference"),
    )
    ∷ (
      "ProcessDetBatchInference",
      ("neudc.core.node.model.proc_det_batch_inference", "ProcessDetBatchInference"),
    )
    ∷ ("ActiveLearning", ("neudc.core.node.model.active_learning_node", "ActiveLearning"))
    ∷ ("CreateDataset", ("neudc.core.node.processors.create_dataset_node", "CreateDataset"))
    ∷ ("TextNormalizeNode", ("neudc.core.node.processors.text_normalize_node", "TextNormalizeNode"))
    ∷ ("AsrNode", ("neudc.core.node.model.asr_node", "AsrNode"))
    ∷ ("LlmNode", ("neudc.core.node.model.llm_node", "LlmNode"))
    ∷ ("TtsNode", ("neudc.core.node.model.tts_node", "TtsNode"))
    ∷ ("AudioPlayerNode", ("neudc.core.node.broadcast.audio_player", "AudioPlayerNode"))
    ∷ ("AgentToolNode", ("neudc.core.node.processors.agent_tool_node", "AgentToolNode"))
    ∷ []

-- The values `V` of a configuration, the classes `C` and the nodes `N`.
pub record Classes (W F V C N : Type 0) : Type 0 where
  pub floats : FloatOps F
  -- import_module_for(module_path, ...) and getattr(module, class_name)
  pub load_class : (module_path class_name : String) → Act W C
  pub from_config : C → Dict V → Act W N
  -- the string that a value is, unless it is empty
  pub text_of : V → Option String
  pub is_none : V → Bool
  -- a policy block, unless it is empty or None
  pub policy_block : V → Option (RawErrorPolicy F)

-- A node with the attributes that the factory sets on it.
pub record BuiltNode (F V N : Type 0) : Type 0 where
  pub instance_of : N
  pub id : String
  pub error_policy : ErrorPolicy F
  pub health_timeout : Option V
  pub health_check_interval : Option V

-- A block without a key.
abbrev pub empty_block : {F : Type 0} → RawErrorPolicy F
empty_block = record {
  on_error = none;
  max_retries = none;
  initial_backoff = none;
  max_backoff = none;
  backoff_multiplier = none;
  jitter = none;
  dead_letter_dir = none;
  store_payload = none;
  extra = [];
}

-- The keys that `create` takes out of the node's own arguments.
abbrev pub popped_keys : List String
popped_keys =
    "type" ∷ "outputs" ∷ "replicas" ∷ "autoscale" ∷ "message_queue_size" ∷ "queue_policy"
    ∷ "error_policy" ∷ "health_timeout" ∷ "health_check_interval" ∷ []

-- config.pop(key, None) for each of the keys
unfoldable pub pop_keys : {V : Type 0} → List String → Dict V → Dict V
unfolding delete
pop_keys [] config = config
pop_keys (key ∷ keys) config = pop_keys keys (delete key config)

-- config.copy() with the mailbox, and without the keys for others
unfoldable pub arguments : {V : Type 0} → V → Dict V → Dict V
unfolding pop_keys assign
arguments mailbox config = pop_keys popped_keys (assign "mailbox" mailbox config)

module _ {W F V C N : Type 0} (classes : Classes W F V C N) where
  open classes use {floats, load_class, from_config, text_of, is_none, policy_block}

  abbrev pub load_found : Option (String × String) → Act W C
  load_found none w = (raised value_error, w)
  load_found (some (module_path, class_name)) w = load_class module_path class_name w

  -- `_resolve`
  unfoldable pub resolve : String → Act W C
  unfolding lookup
  resolve node_type = load_found (lookup node_type node_imports)

  -- `value is not None`
  abbrev pub given : Option V → Option V
  given none = none
  given (some v) = if is_none v then none else some v

  abbrev pub checked_policy : String → Checked (ErrorPolicyConfig F) → Outcome (ErrorPolicy F)
  checked_policy node_id (accepted c) = returned (new_policy c node_id)
  checked_policy node_id (refused e) = raised value_error

  abbrev pub block_of : Option V → RawErrorPolicy F
  block_of none = empty_block
  block_of (some v) = elim (policy_block v) [ none ↦ empty_block | some raw ↦ raw ]

  -- `ErrorPolicy.from_config`
  unfoldable pub policy_from_config : Option V → String → Outcome (ErrorPolicy F)
  policy_from_config config node_id = checked_policy node_id (validate floats (block_of config))

  -- config.get("id") or node_type
  abbrev pub id_or_type : Option V → String → String
  id_or_type none node_type = node_type
  id_or_type (some v) node_type = elim (text_of v) [ none ↦ node_type | some s ↦ s ]

  -- The attributes that are set on the new instance.
  unfoldable pub attach : Dict V → String → N → Act W (BuiltNode F V N)
  unfolding policy_from_config lookup
  attach config node_id node w =
      and_then (policy_from_config (lookup "error_policy" config) node_id, w)
        λ policy w1. (
          returned (record {
            instance_of = node;
            id = node_id;
            error_policy = policy;
            health_timeout = given (lookup "health_timeout" config);
            health_check_interval = given (lookup "health_check_interval" config);
          }),
          w1,
        )

  abbrev pub create_typed : Dict V → V → Option String → Act W (BuiltNode F V N)
  create_typed config mailbox none w = (raised value_error, w)
  create_typed config mailbox (some node_type) w = and_then (resolve node_type w) λ node_class w1.
      and_then (from_config node_class (arguments mailbox config) w1)
        λ node w2. attach config (id_or_type (lookup "id" config) node_type) node w2

  -- `create`
  unfoldable pub create : Dict V → V → Act W (BuiltNode F V N)
  unfolding attach resolve arguments lookup
  create config mailbox w = elim (lookup "type" config) [
    | none ↦ (raised (other "KeyError"), w)
    | some v ↦ create_typed config mailbox (text_of v) w
  ]
