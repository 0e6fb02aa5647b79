-- ===== src/Routing/Wiring.antt =====
-- core/communication/messaging/routing_factory.py: a mailbox for every replica of every node, and
-- the sockets along the edges. Of a mailbox this keeps its name, the two ports that its constructor
-- binds, and its publishers; which ports the system gives to the n-th mailbox is a parameter.
pub mod Laws
pub mod Edges
pub mod Reached
pub mod Examples
use data_pipeline_orchestrat.Base.{
  ℕ, zero, suc, ◌+◌, String, Option, none, some, List, [], ◌∷◌, map, Bool, true, false, leb, Dict,
  lookup, assign, Exception, value_error, other, Outcome, returned, raised, if◌then◌else◌, ℤ,
  length,
}
use data_pipeline_orchestrat.Mailbox.Outbound.{
  Publishers, Update, add_publisher, add_control_publisher,
}

-- What the factory reads of a node's entry; an absent key has its default.
pub record NodeConfig : Type 0 where
  pub id : String
  pub replicas : ℤ
  pub outputs : List String
  pub control_outputs : List String

pub record Endpoint : Type 0 where
  pub name : String
  pub consume_port : ℕ
  pub control_consume_port : ℕ
  pub publishers : Publishers

abbrev pub Mailboxes : Type 0
Mailboxes = Dict (List Endpoint)

-- The system's part: the ports of the n-th mailbox, and f"{node_id}#{i}".
pub record Names : Type 0 where
  pub ports : ℕ → ℕ × ℕ
  pub suffixed : String → ℕ → String

-- One mailbox for `replicas <= 1`, else that many.
abbrev pub replica_count : ℤ → ℕ
replica_count (ℤ.pos n) = if leb n 1 then 1 else n
replica_count (ℤ.negsuc n) = 1

module _ (names : Names) where
  -- ZMQMailbox(name=name, ...), the n-th one
  abbrev pub new_mailbox : String → ℕ → Endpoint
  new_mailbox name n = record {
    name = name;
    consume_port = (names.ports n).0;
    control_consume_port = (names.ports n).1;
    publishers = record { data_pubs = []; control_pubs = [] };
  }

  -- [... for i in range(replicas)], from `i` on
  pub new_mailboxes : (replicas i n : ℕ) → String → List Endpoint
  new_mailboxes zero i n node_id = []
  new_mailboxes (suc replicas) i n node_id =
      new_mailbox (names.suffixed node_id i) n ∷ new_mailboxes replicas (suc i) (suc n) node_id

  -- The two branches on `replicas <= 1`.
  abbrev pub node_mailboxes : ℕ → String → ℕ → List Endpoint
  node_mailboxes replicas node_id n =
      if leb replicas 1 then new_mailbox node_id n ∷ [] else new_mailboxes replicas 0 n node_id

  pub create_replica_mailboxes : List NodeConfig → ℕ → Mailboxes → Mailboxes
  unfolding new_mailboxes
  create_replica_mailboxes [] n d = d
  create_replica_mailboxes (node ∷ nodes) n d =
      let count = replica_count node.replicas in
      create_replica_mailboxes nodes (n + count) (assign node.id (node_mailboxes count node.id n) d)

abbrev pub with_publishers : Endpoint → Update → Outcome Endpoint
with_publishers e (raised x, p) = raised x
with_publishers e (returned u, p) = returned (record e { publishers = p })

-- producer_mailbox.add_publisher(target_node_id, target_ports)
pub data_edge : String → List Endpoint → Endpoint → Outcome Endpoint
data_edge target targets e =
    with_publishers e (add_publisher target (map (λ t. t.consume_port) targets) e.publishers)

-- producer_mailbox.add_control_publisher(target_node_id, target_control_ports)
pub control_edge : String → List Endpoint → Endpoint → Outcome Endpoint
control_edge target targets e = returned (record e {
  publishers =
      add_control_publisher target (map (λ t. t.control_consume_port) targets) e.publishers;
})

abbrev pub cons_endpoint : Outcome Endpoint → Outcome (List Endpoint) → Outcome (List Endpoint)
cons_endpoint (raised x) es = raised x
cons_endpoint (returned e) (raised x) = raised x
cons_endpoint (returned e) (returned es) = returned (e ∷ es)

abbrev pub store : String → Mailboxes → Outcome (List Endpoint) → Outcome Mailboxes
store node_id d (raised x) = raised x
store node_id d (returned es) = returned (assign node_id es d)

abbrev pub after_wiring : Outcome Mailboxes → (Mailboxes → Outcome Mailboxes) → Outcome Mailboxes
after_wiring (raised x) next = raised x
after_wiring (returned d) next = next d

module _ (edge : String → List Endpoint → Endpoint → Outcome Endpoint) where
  -- for producer_mailbox in mailboxes[node_id]
  pub connect_producers : String → List Endpoint → List Endpoint → Outcome (List Endpoint)
  connect_producers target targets [] = returned []
  connect_producers target targets (e ∷ es) =
      cons_endpoint (edge target targets e) (connect_producers target targets es)

  -- `_require_target`, the target's ports, and the producers of the node.
  abbrev pub wire_edge :
      String
      → String
      → Mailboxes
      → Option (List Endpoint)
      → Option (List Endpoint)
      → Outcome Mailboxes
  wire_edge node_id target d none producers = raised value_error
  wire_edge node_id target d (some targets) none = raised (other "KeyError")
  wire_edge node_id target d (some targets) (some producers) =
      store node_id d (connect_producers target targets producers)

  pub wire_targets : String → List String → Mailboxes → Outcome Mailboxes
  unfolding connect_producers
  wire_targets node_id [] d = returned d
  wire_targets node_id (target ∷ targets) d =
      after_wiring (wire_edge node_id target d (lookup target d) (lookup node_id d))
        (wire_targets node_id targets)

  pub wire_nodes : (NodeConfig → List String) → List NodeConfig → Mailboxes → Outcome Mailboxes
  unfolding wire_targets
  wire_nodes outputs [] d = returned d
  wire_nodes outputs (node ∷ nodes) d =
      after_wiring (wire_targets node.id (outputs node) d) (wire_nodes outputs nodes)

pub wire_data_outputs : List NodeConfig → Mailboxes → Outcome Mailboxes
unfolding wire_nodes data_edge
wire_data_outputs = wire_nodes data_edge (λ node. node.outputs)

pub wire_control_outputs : List NodeConfig → Mailboxes → Outcome Mailboxes
unfolding wire_nodes control_edge
wire_control_outputs = wire_nodes control_edge (λ node. node.control_outputs)

pub create_mailboxes : Names → List NodeConfig → Outcome Mailboxes
unfolding create_replica_mailboxes wire_data_outputs wire_control_outputs
create_mailboxes names nodes =
    after_wiring (wire_data_outputs nodes (create_replica_mailboxes names nodes 0 []))
      (wire_control_outputs nodes)
