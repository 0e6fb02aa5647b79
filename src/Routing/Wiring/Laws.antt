-- ===== src/Routing/Wiring/Laws.antt =====
-- What the wired mailboxes are, whatever the configuration.
use mathlib.Core.Path.{subst}
use data_pipeline_orchestrat.Base.{
  ℕ, zero, suc, ◌+◌, ◌≡◌, refl, ap, arith, String, str_eq, Option, none, some, List, [], ◌∷◌, map,
  Bool, true, false, ◌||◌, All, leb, lookup, assign, lookup-assign, ◌<◌, all, Outcome, returned,
  raised, length, Bool-cases, inl, inr,
}
use data_pipeline_orchestrat.Mailbox.Outbound.{
  Publishers, ZeroQueuePub, new_pub, publish, Update, add_publisher, add_control_publisher,
}
use data_pipeline_orchestrat.Mailbox.Outbound.Laws.{IsConnected, add_publisher-IsConnected}
use data_pipeline_orchestrat.Routing.Wiring.{
  NodeConfig, Endpoint, Mailboxes, Names, replica_count, new_mailboxes, node_mailboxes,
  create_replica_mailboxes, with_publishers, data_edge, control_edge, cons_endpoint,
  connect_producers, store, wire_edge, after_wiring, wire_targets, wire_nodes, wire_data_outputs,
  wire_control_outputs, create_mailboxes,
}

abbrev pub EndpointOk : Endpoint → Type 0
EndpointOk e = IsConnected e.publishers

-- The mailboxes of a node: at least one, with every socket connected, and to no port twice.
abbrev pub Group : List Endpoint → Type 0
Group es = (0 < length es) × All EndpointOk es

-- Every one of the ids has mailboxes, and all mailboxes are as they should be.
pub record Wired (ids : String → Bool) (d : Mailboxes) : Type 0 where
  pub known : (k : String) → ids k ≡ true → (es : List Endpoint) × (lookup k d ≡ some es)
  pub at_node : (k : String) (es : List Endpoint) → lookup k d ≡ some es → Group es

-- The call returns, and what it returns has the property.
abbrev pub Succeeds : {A : Type 0} → (A → Type 0) → Outcome A → Type 0
Succeeds P (returned a) = P a
Succeeds P (raised x) = ⊥

module _ (ids : String → Bool) where
  assign-Wired :
      (k : String) (es : List Endpoint) (d : Mailboxes)
      → Group es
      → Wired ids d
      → Wired ids (assign k es d)
  assign-Wired k es d ok h = record {
    known = λ j e. found j (str_eq k j) refl e;
    at_node = λ j fs e. at j fs (str_eq k j) refl e;
  }
    where
      found :
          (j : String) (b : Bool)
          → str_eq k j ≡ b
          → ids j ≡ true
          → (fs : List Endpoint) × (lookup j (assign k es d) ≡ some fs)
      found j true t e = (es, ground (arith, lookup-assign k j es d))
      found j false t e =
          let (fs, q) = h.known j e in (fs, ground (arith, q, lookup-assign k j es d))

      at :
          (j : String) (fs : List Endpoint) (b : Bool)
          → str_eq k j ≡ b
          → lookup j (assign k es d) ≡ some fs
          → Group fs
      at j fs true t e =
          let q : es ≡ fs = ground (arith, lookup-assign k j es d) in subst Group q ok
      at j fs false t e = h.at_node j fs (ground (arith, lookup-assign k j es d))

-- A further node is known once its mailboxes are stored.
grown-Wired :
    (ids : String → Bool) (k : String) (es : List Endpoint) (d : Mailboxes)
    → Group es
    → Wired ids d
    → Wired (λ j. ids j || str_eq k j) (assign k es d)
grown-Wired ids k es d ok h =
    let stored = assign-Wired ids k es d ok h in
    record { known = λ j e. found j (str_eq k j) refl e; at_node = stored.at_node }
  where
    found :
        (j : String) (b : Bool)
        → str_eq k j ≡ b
        → (ids j || b) ≡ true
        → (fs : List Endpoint) × (lookup j (assign k es d) ≡ some fs)
    found j true t e = (es, ground (arith, lookup-assign k j es d))
    found j false t e = (assign-Wired ids k es d ok h).known j (ground arith)

-- Every node has an id among `ids`, and its edges name only such.
abbrev pub Resolved : (String → Bool) → (NodeConfig → List String) → List NodeConfig → Type 0
Resolved ids outputs [] = Unit
Resolved ids outputs (node ∷ nodes) =
    (ids node.id ≡ true) × (all ids (outputs node) ≡ true) × Resolved ids outputs nodes

module _ (ids : String → Bool) (edge : String → List Endpoint → Endpoint → Outcome Endpoint)
    (keeps : (target : String) (targets : List Endpoint) (e : Endpoint)
      → 0 < length targets
      → EndpointOk e
      → Succeeds EndpointOk (edge target targets e)) where
  cons-Succeeds :
      (n : ℕ) (e : Outcome Endpoint) (es : Outcome (List Endpoint))
      → Succeeds EndpointOk e
      → Succeeds (λ fs. (length fs ≡ n) × All EndpointOk fs) es
      → Succeeds (λ fs. (length fs ≡ suc n) × All EndpointOk fs) (cons_endpoint e es)
  cons-Succeeds n (raised x) es h k = h
  cons-Succeeds n (returned e) (raised x) h k = k
  cons-Succeeds n (returned e) (returned es) h k = (ap suc k.0, (h, k.1))

  connect_producers-Succeeds :
      (target : String) (targets es : List Endpoint)
      → 0 < length targets
      → All EndpointOk es
      → Succeeds
          (λ fs. (length fs ≡ length es) × All EndpointOk fs)
          (connect_producers edge target targets es)
  unfolding connect_producers
  connect_producers-Succeeds target targets [] some_target h = (refl, tt)
  connect_producers-Succeeds target targets (e ∷ es) some_target h =
      cons-Succeeds (length es) (edge target targets e) (connect_producers edge target targets es)
        (keeps target targets e some_target h.0)
        (connect_producers-Succeeds target targets es some_target h.1)

  store-Succeeds :
      (node_id : String) (d : Mailboxes) (n : ℕ) (es : Outcome (List Endpoint))
      → 0 < n
      → Wired ids d
      → Succeeds (λ fs. (length fs ≡ n) × All EndpointOk fs) es
      → Succeeds (Wired ids) (store node_id d es)
  store-Succeeds node_id d n (raised x) pos_n h k = k
  store-Succeeds node_id d n (returned es) pos_n h k =
      assign-Wired ids node_id es d (omega (arith, k.0, pos_n), k.1) h

  wire_edge-Succeeds :
      (node_id target : String) (d : Mailboxes)
      → ids node_id ≡ true
      → ids target ≡ true
      → Wired ids d
      → Succeeds (Wired ids) (wire_edge edge node_id target d (lookup target d) (lookup node_id d))
  wire_edge-Succeeds node_id target d here there h =
      let (es, e) = h.known node_id here in
      let (ts, t) = h.known target there in
      let (many, ok) = h.at_node node_id es e in
      rw (e, t)
        (store-Succeeds node_id d (length es) (connect_producers edge target ts es) many h
          (connect_producers-Succeeds target ts es (h.at_node target ts t).0 ok))

  after_wiring-Succeeds :
      (r : Outcome Mailboxes) (next : Mailboxes → Outcome Mailboxes)
      → Succeeds (Wired ids) r
      → ((d : Mailboxes) → Wired ids d → Succeeds (Wired ids) (next d))
      → Succeeds (Wired ids) (after_wiring r next)
  after_wiring-Succeeds (raised x) next h k = h
  after_wiring-Succeeds (returned d) next h k = k d h

  wire_targets-Succeeds :
      (node_id : String) (targets : List String) (d : Mailboxes)
      → ids node_id ≡ true
      → all ids targets ≡ true
      → Wired ids d
      → Succeeds (Wired ids) (wire_targets edge node_id targets d)
  unfolding wire_targets
  wire_targets-Succeeds node_id [] d here there h = h
  wire_targets-Succeeds node_id (t ∷ ts) d here there h =
      after_wiring-Succeeds (wire_edge edge node_id t d (lookup t d) (lookup node_id d)) _
        (wire_edge-Succeeds node_id t d here (ground arith) h)
        (λ d1 h1. wire_targets-Succeeds node_id ts d1 here (ground arith) h1)

  wire_nodes-Succeeds :
      (outputs : NodeConfig → List String) (nodes : List NodeConfig) (d : Mailboxes)
      → Resolved ids outputs nodes
      → Wired ids d
      → Succeeds (Wired ids) (wire_nodes edge outputs nodes d)
  unfolding wire_nodes
  wire_nodes-Succeeds outputs [] d r h = h
  wire_nodes-Succeeds outputs (node ∷ nodes) d r h =
      after_wiring-Succeeds (wire_targets edge node.id (outputs node) d) _
        (wire_targets-Succeeds node.id (outputs node) d r.0 r.1 h)
        (λ d1 h1. wire_nodes-Succeeds outputs nodes d1 r.2 h1)

with_publishers-Succeeds :
    (e : Endpoint) (u : Update)
    → (u.0 ≡ returned tt)
    → IsConnected u.1
    → Succeeds EndpointOk (with_publishers e u)
with_publishers-Succeeds e (raised x, p) r h = absurd (cc)
with_publishers-Succeeds e (returned u, p) r h = h

add_publisher-returned :
    (target : String) (port : ℕ) (ports : List ℕ) (p : Publishers)
    → (add_publisher target (port ∷ ports) p).0 ≡ returned tt
unfolding add_publisher publish new_pub
add_publisher-returned target port ports p = by_found (lookup target p.data_pubs)
  where
    by_found : (o : Option ZeroQueuePub) → (publish o target (port ∷ ports) p).0 ≡ returned tt
    by_found none = refl
    by_found (some s) = refl

data_edge-Succeeds :
    (target : String) (targets : List Endpoint) (e : Endpoint)
    → 0 < length targets
    → EndpointOk e
    → Succeeds EndpointOk (data_edge target targets e)
unfolding data_edge
data_edge-Succeeds target [] e some_target h = absurd (omega (arith, some_target))
data_edge-Succeeds target (t ∷ ts) e some_target h =
    with_publishers-Succeeds e _
      (add_publisher-returned target t.consume_port (map (λ x. x.consume_port) ts) e.publishers)
      (add_publisher-IsConnected target (map (λ x. x.consume_port) (t ∷ ts)) e.publishers h)

control_edge-Succeeds :
    (target : String) (targets : List Endpoint) (e : Endpoint)
    → 0 < length targets
    → EndpointOk e
    → Succeeds EndpointOk (control_edge target targets e)
unfolding control_edge add_control_publisher
control_edge-Succeeds target targets e some_target h = record { at_target = h.at_target }

no_sockets-IsConnected : IsConnected (record { data_pubs = []; control_pubs = [] })
unfolding lookup
no_sockets-IsConnected = record { at_target = λ k s e. absurd cc }

-- The ids of the nodes.
abbrev pub named : List NodeConfig → String → Bool
named [] k = false
named (node ∷ nodes) k = str_eq node.id k || named nodes k

no_mailboxes : Wired (λ k. false) []
unfolding lookup
no_mailboxes = record { known = λ k e. absurd cc; at_node = λ k es e. absurd cc }

module _ (names : Names) where
  new_mailboxes-Ok :
      (replicas i n : ℕ) (node_id : String)
      → (length (new_mailboxes names replicas i n node_id) ≡ replicas)
        × All EndpointOk (new_mailboxes names replicas i n node_id)
  unfolding new_mailboxes
  new_mailboxes-Ok zero i n node_id = (refl, tt)
  new_mailboxes-Ok (suc r) i n node_id =
      let (len, ok) = new_mailboxes-Ok r (suc i) (suc n) node_id in
      (ap suc len, (no_sockets-IsConnected, ok))

  node_mailboxes-Group :
      (replicas : ℕ) (node_id : String) (n : ℕ) → Group (node_mailboxes names replicas node_id n)
  node_mailboxes-Group replicas node_id n = elim (Bool-cases (leb replicas 1)) [
    | inl e ↦ rw e (omega arith, (no_sockets-IsConnected, tt))
    | inr e ↦
        let (len, ok) = new_mailboxes-Ok replicas 0 n node_id in rw e (ground (arith, len), ok)
  ]

  create-Wired :
      (old ids : String → Bool) (nodes : List NodeConfig) (n : ℕ) (d : Mailboxes)
      → Wired old d
      → ((k : String) → ids k ≡ true → (old k || named nodes k) ≡ true)
      → Wired ids (create_replica_mailboxes names nodes n d)
  unfolding create_replica_mailboxes
  create-Wired old ids [] n d h all_known = record {
    known = λ k e. h.known k (ground (arith, all_known k e));
    at_node = h.at_node;
  }
  create-Wired old ids (node ∷ nodes) n d h all_known =
      let count = replica_count node.replicas in
      create-Wired (λ j. old j || str_eq node.id j) ids nodes (n + count)
        (assign node.id (node_mailboxes names count node.id n) d)
        (grown-Wired old node.id _ d (node_mailboxes-Group count node.id n) h)
        (λ k e. ground (arith, all_known k e))

  -- If every output and control output names a node, `create_mailboxes` returns: every node has at
  -- least one mailbox, and every data socket of every mailbox is connected, to no port twice. This
  -- holds for any numbers of replicas, edges of a node to itself, repeated edges and repeated ids.
  pub create_mailboxes-Wired :
      (nodes : List NodeConfig)
      → Resolved (named nodes) (λ node. node.outputs) nodes
      → Resolved (named nodes) (λ node. node.control_outputs) nodes
      → Succeeds (Wired (named nodes)) (create_mailboxes names nodes)
  unfolding create_mailboxes wire_data_outputs wire_control_outputs
  create_mailboxes-Wired nodes data_known control_known =
      after_wiring-Succeeds (named nodes) data_edge data_edge-Succeeds
        (wire_data_outputs nodes (create_replica_mailboxes names nodes 0 [])) _
        (wire_nodes-Succeeds (named nodes) data_edge data_edge-Succeeds (λ node. node.outputs) nodes
          _ data_known (create-Wired (λ k. false) (named nodes) nodes 0 [] no_mailboxes (λ k e. e)))
        (λ d.
          wire_nodes-Succeeds (named nodes) control_edge control_edge-Succeeds
            (λ node. node.control_outputs) nodes d control_known)
