-- ===== src/Routing/Pipeline.antt =====
-- `BasePipeline.run` of core/base/base_pipeline.py: the nodes are built, started, watched until one of
-- them has failed or the pipeline is told to stop, and then stopped. Logging is left out.
pub mod Laws
pub mod Replicas
pub mod Examples
use data_pipeline_orchestrat.Base.{
  ℕ, zero, suc, String, Option, none, some, List, [], ◌∷◌, ◌++◌, Bool, true, false, ltb, length,
  Dict, lookup, Exception, other, Outcome, returned, raised, Act, and_then, if◌then◌else◌,
}
use data_pipeline_orchestrat.Routing.Factory.{BuiltNode}

-- How time.sleep ends: by itself, by Ctrl-C, or with another exception.
pub data Nap : Type 0 where
  woke : Nap
  keyboard_interrupt : Nap
  nap_raised : Exception → Nap

-- The calls of `run`: the mailboxes that the router gives to the id of a node, `NodeFactory.create`
-- over the entries `E` and the mailboxes `B`, the methods of a node, and the stop event.
pub record Host (W E B F V N : Type 0) : Type 0 where
  pub mailboxes : Dict (List B)
  pub create_node : E → B → Act W (BuiltNode F V N)
  pub entry_id : E → String
  -- f"{node_id}#{i}"
  pub suffixed : String → ℕ → String
  pub start_node : N → Act W (Unit {0})
  pub failed : N → W → Bool
  pub stop_node : N → Act W (Unit {0})
  pub stop_event_set : W → Bool
  -- time.sleep(0.1)
  pub nap : W → Nap × W

module _ {W E B F V N : Type 0} (host : Host W E B F V N) where
  open host use {
    mailboxes, create_node, entry_id, suffixed, start_node, failed, stop_node, stop_event_set, nap,
  }

  -- if len(replica_mailboxes) > 1: node.id = f"{node_id}#{i}"
  unfoldable pub rename : (count i : ℕ) → String → BuiltNode F V N → BuiltNode F V N
  rename count i node_id node =
      if ltb 1 count then record node { id = suffixed node_id i } else node

  -- for i, mailbox in enumerate(replica_mailboxes), from `i` on
  unfoldable pub build_replicas : (count i : ℕ) → E → List B → Act W (List (BuiltNode F V N))
  unfolding rename
  build_replicas count i entry [] w = (returned [], w)
  build_replicas count i entry (mailbox ∷ rest) w =
      and_then (create_node entry mailbox w) λ node w1.
        and_then (build_replicas count (suc i) entry rest w1)
          λ nodes w2. (returned (rename count i (entry_id entry) node ∷ nodes), w2)

  abbrev pub build_entry_nodes : E → Option (List B) → Act W (List (BuiltNode F V N))
  build_entry_nodes entry none w = (raised (other "KeyError"), w)
  build_entry_nodes entry (some boxes) w = build_replicas (length boxes) 0 entry boxes w

  -- for node_config in self.nodes_config
  unfoldable pub build_nodes : List E → Act W (List (BuiltNode F V N))
  unfolding build_replicas lookup
  build_nodes [] w = (returned [], w)
  build_nodes (entry ∷ entries) w =
      and_then (build_entry_nodes entry (lookup (entry_id entry) mailboxes) w)
        λ nodes w1. and_then (build_nodes entries w1) λ more w2. (returned (nodes ++ more), w2)

  -- for node in self.nodes: node.start(), or node.stop()
  unfoldable pub for_each : (N → Act W (Unit {0})) → List (BuiltNode F V N) → Act W (Unit {0})
  for_each f [] w = (returned tt, w)
  for_each f (node ∷ nodes) w = and_then (f node.instance_of w) λ _. for_each f nodes

  -- broken is not empty
  unfoldable pub any_failed : List (BuiltNode F V N) → W → Bool
  any_failed [] w = false
  any_failed (node ∷ nodes) w =
      let rest = any_failed nodes w in if failed node.instance_of w then true else rest

  -- How the watch goes on after its nap.
  abbrev pub after_nap : (W → Nap × W) → Nap × W → Nap × W
  after_nap next (woke, w) = next w
  after_nap next ended = ended

  -- `while not self.stop_event.is_set()`, for at most this many rounds
  unfoldable pub watch : ℕ → List (BuiltNode F V N) → W → Nap × W
  unfolding any_failed
  watch zero nodes w = (woke, w)
  watch (suc n) nodes w =
      let rest = after_nap (watch n nodes) (nap w) in
      if stop_event_set w then (woke, w) else if any_failed nodes w then (woke, w) else rest

  -- `except KeyboardInterrupt` and `finally`: every node is stopped, and then another error goes on.
  abbrev pub after_watch : List (BuiltNode F V N) → Nap × W → Outcome (Unit {0}) × W
  unfolding for_each
  after_watch nodes (nap_raised e, w) = and_then (for_each stop_node nodes w) λ _ w1. (raised e, w1)
  after_watch nodes (_, w) = for_each stop_node nodes w

  -- `run`, where the watch takes at most `rounds` rounds
  unfoldable pub run_pipeline : (rounds : ℕ) → List E → W → Outcome (Unit {0}) × W
  unfolding build_nodes for_each watch
  run_pipeline rounds entries w = and_then (build_nodes entries w) λ nodes w1.
      and_then (for_each start_node nodes w1) λ _ w2. after_watch nodes (watch rounds nodes w2)
