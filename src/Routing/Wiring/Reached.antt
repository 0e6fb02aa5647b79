-- ===== src/Routing/Wiring/Reached.antt =====
-- Which ports the data sockets of the wired mailboxes are connected to.
use mathlib.Core.Path.{subst}
use data_pipeline_orchestrat.Base.{
  ℕ, ◌≡◌, refl, sym, String, some, List, [], ◌∷◌, lookup, returned, inl, inr, ◌⊎◌,
}
use data_pipeline_orchestrat.Mailbox.Outbound.{add_control_publisher}
use data_pipeline_orchestrat.Routing.Wiring.{
  NodeConfig, Endpoint, Mailboxes, Names, create_replica_mailboxes, data_edge, control_edge,
  connect_producers, wire_edge, wire_targets, wire_nodes, wire_data_outputs, wire_control_outputs,
  create_mailboxes,
}
use data_pipeline_orchestrat.Routing.Wiring.Edges.{
  IfReturned, HoldsAt, Reaches, Receives, after_wiring-IfReturned, wire_edge-HoldsAt,
  wire_targets-HoldsAt, wire_nodes-HoldsAt, connect_producers-All, connect_producers-Receives,
  data_edge-port, data_edge-grows, wire_edge-Reaches,
}

abbrev OneOf : String → List String → Type 0
OneOf target [] = ⊥
OneOf target (t ∷ ts) = (t ≡ target) ⊎ OneOf target ts

-- Some node of that id has the target among its outputs.
abbrev pub IsEdge : (node_id target : String) → List NodeConfig → Type 0
IsEdge node_id target [] = ⊥
IsEdge node_id target (node ∷ nodes) =
    ((node.id ≡ node_id) × OneOf target node.outputs) ⊎ IsEdge node_id target nodes

module _ (port : ℕ) where
  data_keeps_Reaches :
      (k target : String) (targets es : List Endpoint)
      → Reaches k port es
      → IfReturned (Reaches k port) (connect_producers data_edge target targets es)
  data_keeps_Reaches k = connect_producers-All data_edge _ (data_edge-grows k port)

  control_keeps_Reaches :
      (k target : String) (targets es : List Endpoint)
      → Reaches k port es
      → IfReturned (Reaches k port) (connect_producers control_edge target targets es)
  unfolding control_edge add_control_publisher
  control_keeps_Reaches k = connect_producers-All control_edge _ (λ target targets e h. h)

  data_keeps_Receives :
      (target : String) (targets es : List Endpoint)
      → Receives port es
      → IfReturned (Receives port) (connect_producers data_edge target targets es)
  data_keeps_Receives = connect_producers-Receives data_edge data_edge-port port

  wire_targets-Reaches :
      (node_id target : String) (targets : List String) (d : Mailboxes)
      → OneOf target targets
      → HoldsAt target (Receives port) d
      → IfReturned
          (HoldsAt node_id (Reaches target port))
          (wire_targets data_edge node_id targets d)
  unfolding wire_targets
  wire_targets-Reaches node_id target [] d never h = absurd never
  wire_targets-Reaches node_id target (t ∷ ts) d (inl same) h =
      after_wiring-IfReturned (HoldsAt node_id (Reaches target port)) _ _ _
        (subst
          (λ x.
            IfReturned (HoldsAt node_id (Reaches x port))
              (wire_edge data_edge node_id t d (lookup t d) (lookup node_id d)))
          same
          (wire_edge-Reaches port node_id t d (lookup t d) (lookup node_id d) refl
            (subst (λ x. HoldsAt x (Receives port) d) (sym same) h)))
        (wire_targets-HoldsAt data_edge node_id _ (data_keeps_Reaches target) node_id ts)
  wire_targets-Reaches node_id target (t ∷ ts) d (inr later) h =
      after_wiring-IfReturned (HoldsAt target (Receives port)) _ _ _
        (wire_edge-HoldsAt data_edge target _ data_keeps_Receives node_id t d (lookup t d)
          (lookup node_id d) refl h)
        (λ d1 h1. wire_targets-Reaches node_id target ts d1 later h1)

  wire_nodes-Reaches :
      (node_id target : String) (nodes : List NodeConfig) (d : Mailboxes)
      → IsEdge node_id target nodes
      → HoldsAt target (Receives port) d
      → IfReturned (HoldsAt node_id (Reaches target port)) (wire_data_outputs nodes d)
  unfolding wire_nodes wire_data_outputs
  wire_nodes-Reaches node_id target [] d never h = absurd never
  wire_nodes-Reaches node_id target (node ∷ nodes) d (inl (same, edge)) h =
      after_wiring-IfReturned (HoldsAt node_id (Reaches target port)) _ _ _
        (subst
          (λ x.
            IfReturned (HoldsAt x (Reaches target port))
              (wire_targets data_edge node.id node.outputs d))
          same (wire_targets-Reaches node.id target node.outputs d edge h))
        (wire_nodes-HoldsAt data_edge node_id _ (data_keeps_Reaches target) (λ n. n.outputs) nodes)
  wire_nodes-Reaches node_id target (node ∷ nodes) d (inr later) h =
      after_wiring-IfReturned (HoldsAt target (Receives port)) _ _ _
        (wire_targets-HoldsAt data_edge target _ data_keeps_Receives node.id node.outputs d h)
        (λ d1 h1. wire_nodes-Reaches node_id target nodes d1 later h1)

  -- If `create_mailboxes` returns, then wherever a node names a target among its outputs, every
  -- mailbox of the node has a data socket for the target that is connected to every port on which
  -- the mailboxes made for the target receive messages. This holds for any numbers of replicas, edges
  -- of a node to itself, repeated edges and repeated ids.
  pub create_mailboxes-Reaches :
      (names : Names) (nodes : List NodeConfig) (node_id target : String) (ts : List Endpoint)
      (d : Mailboxes)
      → IsEdge node_id target nodes
      → lookup target (create_replica_mailboxes names nodes 0 []) ≡ some ts
      → Receives port ts
      → create_mailboxes names nodes ≡ returned d
      → HoldsAt node_id (Reaches target port) d
  unfolding create_mailboxes wire_control_outputs
  create_mailboxes-Reaches names nodes node_id target ts d edge made receives wired =
      subst (IfReturned (HoldsAt node_id (Reaches target port))) wired (
        after_wiring-IfReturned (HoldsAt node_id (Reaches target port)) _
          (wire_data_outputs nodes (create_replica_mailboxes names nodes 0 [])) _
          (wire_nodes-Reaches node_id target nodes _ edge (ts, made, receives))
          (wire_nodes-HoldsAt control_edge node_id _ (control_keeps_Reaches target)
            (λ n. n.control_outputs) nodes))
