-- ===== src/Routing/Wiring/Edges.antt =====
-- What wiring one edge, and the edges after it, does to the mailboxes of a node.
use mathlib.Core.Path.{subst}
use data_pipeline_orchestrat.Base.{
  ℕ, ◌≡◌, refl, if◌then◌else◌, arith, String, str_eq, eq_iff, Option, none, some, List, [], ◌∷◌,
  map, Bool, true, ◌||◌, All, lookup, assign, lookup-assign, Outcome, returned, raised, Bool-cases,
  inl, inr, contains,
}
use data_pipeline_orchestrat.Mailbox.Outbound.{Update, add_publisher}
use data_pipeline_orchestrat.Mailbox.Outbound.Laws.{ports_of, add_publisher-ports}
use data_pipeline_orchestrat.Routing.Wiring.{
  NodeConfig, Endpoint, Mailboxes, with_publishers, data_edge, cons_endpoint, connect_producers,
  store, wire_edge, after_wiring, wire_targets, wire_nodes,
}

-- If the call returns, what it returns has the property.
abbrev pub IfReturned : {A : Type 0} → (A → Type 0) → Outcome A → Type 0
IfReturned P (returned a) = P a
IfReturned P (raised x) = Unit

-- The mailboxes of the node exist and have the property.
abbrev pub HoldsAt : String → (List Endpoint → Type 0) → Mailboxes → Type 0
HoldsAt k Q d = (es : List Endpoint) × (lookup k d ≡ some es) × Q es

-- Every mailbox has a data socket for the target that is connected to the port.
abbrev pub Reaches : String → ℕ → List Endpoint → Type 0
Reaches target port =
    All (λ (e : Endpoint). contains port (ports_of (lookup target e.publishers.data_pubs)) ≡ true)

-- One of the mailboxes receives its messages on the port.
abbrev pub Receives : ℕ → List Endpoint → Type 0
Receives port es = contains port (map (λ (e : Endpoint). e.consume_port) es) ≡ true

pub after_wiring-IfReturned :
    (P Q : Mailboxes → Type 0) (r : Outcome Mailboxes) (next : Mailboxes → Outcome Mailboxes)
    → IfReturned P r
    → ((d : Mailboxes) → P d → IfReturned Q (next d))
    → IfReturned Q (after_wiring r next)
after_wiring-IfReturned P Q (raised x) next h k = tt
after_wiring-IfReturned P Q (returned d) next h k = k d h

module _ (edge : String → List Endpoint → Endpoint → Outcome Endpoint) (k : String)
    (Q : List Endpoint → Type 0)
    (keeps : (target : String) (targets es : List Endpoint)
      → Q es
      → IfReturned Q (connect_producers edge target targets es)) where
  assign-HoldsAt :
      (node_id : String) (d : Mailboxes) (es fs : List Endpoint)
      → lookup node_id d ≡ some es
      → (Q es → Q fs)
      → HoldsAt k Q d
      → HoldsAt k Q (assign node_id fs d)
  assign-HoldsAt node_id d es fs e step (gs, found, held) = elim (Bool-cases (str_eq node_id k)) [
    | inl same ↦
        let at_k : lookup k (assign node_id fs d) ≡ some fs =
          ground (arith, lookup-assign node_id k fs d) in
        let key : node_id ≡ k = ground (arith, eq_iff node_id k) in
        let both : gs ≡ es = ground (arith, e, found, key) in (fs, at_k, step (subst Q both held))
    | inr other ↦ (gs, ground (arith, found, lookup-assign node_id k fs d), held)
  ]

  store-HoldsAt :
      (node_id : String) (d : Mailboxes) (es : List Endpoint) (r : Outcome (List Endpoint))
      → lookup node_id d ≡ some es
      → (Q es → IfReturned Q r)
      → HoldsAt k Q d
      → IfReturned (HoldsAt k Q) (store node_id d r)
  store-HoldsAt node_id d es (raised x) e step h = tt
  store-HoldsAt node_id d es (returned fs) e step h = assign-HoldsAt node_id d es fs e step h

  pub wire_edge-HoldsAt :
      (node_id target : String) (d : Mailboxes) (ts es : Option (List Endpoint))
      → lookup node_id d ≡ es
      → HoldsAt k Q d
      → IfReturned (HoldsAt k Q) (wire_edge edge node_id target d ts es)
  wire_edge-HoldsAt node_id target d none es e h = tt
  wire_edge-HoldsAt node_id target d (some ts) none e h = tt
  wire_edge-HoldsAt node_id target d (some ts) (some es) e h =
      store-HoldsAt node_id d es (connect_producers edge target ts es) e (keeps target ts es) h

  pub wire_targets-HoldsAt :
      (node_id : String) (targets : List String) (d : Mailboxes)
      → HoldsAt k Q d
      → IfReturned (HoldsAt k Q) (wire_targets edge node_id targets d)
  unfolding wire_targets
  wire_targets-HoldsAt node_id [] d h = h
  wire_targets-HoldsAt node_id (t ∷ ts) d h =
      after_wiring-IfReturned (HoldsAt k Q) (HoldsAt k Q) _ _
        (wire_edge-HoldsAt node_id t d (lookup t d) (lookup node_id d) refl h)
        (wire_targets-HoldsAt node_id ts)

  pub wire_nodes-HoldsAt :
      (outputs : NodeConfig → List String) (nodes : List NodeConfig) (d : Mailboxes)
      → HoldsAt k Q d
      → IfReturned (HoldsAt k Q) (wire_nodes edge outputs nodes d)
  unfolding wire_nodes
  wire_nodes-HoldsAt outputs [] d h = h
  wire_nodes-HoldsAt outputs (node ∷ nodes) d h =
      after_wiring-IfReturned (HoldsAt k Q) (HoldsAt k Q) _ _
        (wire_targets-HoldsAt node.id (outputs node) d h) (wire_nodes-HoldsAt outputs nodes)

cons-All :
    (P : Endpoint → Type 0) (e : Outcome Endpoint) (es : Outcome (List Endpoint))
    → IfReturned P e
    → IfReturned (All P) es
    → IfReturned (All P) (cons_endpoint e es)
cons-All P (raised x) es h k = tt
cons-All P (returned e) (raised x) h k = tt
cons-All P (returned e) (returned es) h k = (h, k)

-- An edge changes neither the ports that a mailbox receives on, nor what a data socket reaches.
module _ (edge : String → List Endpoint → Endpoint → Outcome Endpoint) (P : Endpoint → Type 0)
    (keeps : (target : String) (targets : List Endpoint) (e : Endpoint)
      → P e
      → IfReturned P (edge target targets e)) where
  pub connect_producers-All :
      (target : String) (targets es : List Endpoint)
      → All P es
      → IfReturned (All P) (connect_producers edge target targets es)
  unfolding connect_producers
  connect_producers-All target targets [] h = tt
  connect_producers-All target targets (e ∷ es) h =
      cons-All P (edge target targets e) (connect_producers edge target targets es)
        (keeps target targets e h.0) (connect_producers-All target targets es h.1)

module _ (edge : String → List Endpoint → Endpoint → Outcome Endpoint)
    (same : (target : String) (targets : List Endpoint) (e : Endpoint)
      → IfReturned
          (λ (f : Endpoint). f.consume_port ≡ e.consume_port)
          (edge target targets e)) where
  pub connect_producers-Receives :
      (port : ℕ) (target : String) (targets es : List Endpoint)
      → Receives port es
      → IfReturned (Receives port) (connect_producers edge target targets es)
  unfolding connect_producers
  connect_producers-Receives port target targets es h =
      kept (connect_producers edge target targets es) (ports_kept es)
    where
      Same : List Endpoint → List Endpoint → Type 0
      Same es fs =
          map (λ (e : Endpoint). e.consume_port) fs ≡ map (λ (e : Endpoint). e.consume_port) es

      cons-Same :
          (e0 : Endpoint) (es0 : List Endpoint) (e : Outcome Endpoint)
          (es : Outcome (List Endpoint))
          → IfReturned (λ (f : Endpoint). f.consume_port ≡ e0.consume_port) e
          → IfReturned (Same es0) es
          → IfReturned (Same (e0 ∷ es0)) (cons_endpoint e es)
      cons-Same e0 es0 (raised x) es h k = tt
      cons-Same e0 es0 (returned e) (raised x) h k = tt
      cons-Same e0 es0 (returned e) (returned es) h k = rw (h, k) refl

      ports_kept :
          (es : List Endpoint) → IfReturned (Same es) (connect_producers edge target targets es)
      ports_kept [] = refl
      ports_kept (e ∷ es) =
          cons-Same e es (edge target targets e) (connect_producers edge target targets es)
            (same target targets e) (ports_kept es)

      kept : (r : Outcome (List Endpoint)) → IfReturned (Same es) r → IfReturned (Receives port) r
      kept (raised x) k = tt
      kept (returned fs) k = rw k h

pub data_edge-port :
    (target : String) (targets : List Endpoint) (e : Endpoint)
    → IfReturned (λ (f : Endpoint). f.consume_port ≡ e.consume_port) (data_edge target targets e)
unfolding data_edge
data_edge-port target targets e = by_update _
  where
    by_update :
        (u : Update)
        → IfReturned (λ (f : Endpoint). f.consume_port ≡ e.consume_port) (with_publishers e u)
    by_update (raised x, p) = tt
    by_update (returned u, p) = refl

-- What a data edge adds to what the data socket for the target reaches.
data_edge-ports :
    (target : String) (targets : List Endpoint) (e : Endpoint) (k : String) (port : ℕ)
    → IfReturned
        (λ (f : Endpoint). contains port (ports_of (lookup k f.publishers.data_pubs)) ≡ (
          if str_eq target k
          then contains port (ports_of (lookup k e.publishers.data_pubs))
            || contains port (map (λ (t : Endpoint). t.consume_port) targets)
          else contains port (ports_of (lookup k e.publishers.data_pubs))))
        (data_edge target targets e)
unfolding data_edge
data_edge-ports target targets e k port =
    by_update (add_publisher target (map (λ (t : Endpoint). t.consume_port) targets) e.publishers) (
      add_publisher-ports target (map (λ (t : Endpoint). t.consume_port) targets) e.publishers k
        port)
  where
    by_update :
        {b : Bool} (u : Update)
        → contains port (ports_of (lookup k u.1.data_pubs)) ≡ b
        → IfReturned
            (λ (f : Endpoint). contains port (ports_of (lookup k f.publishers.data_pubs)) ≡ b)
            (with_publishers e u)
    by_update (raised x, p) h = tt
    by_update (returned u, p) h = h

-- What the socket for a target reaches only grows, and the target's own edge adds its ports.
pub data_edge-grows :
    (k : String) (port : ℕ) (target : String) (targets : List Endpoint) (e : Endpoint)
    → contains port (ports_of (lookup k e.publishers.data_pubs)) ≡ true
    → IfReturned
        (λ (f : Endpoint). contains port (ports_of (lookup k f.publishers.data_pubs)) ≡ true)
        (data_edge target targets e)
data_edge-grows k port target targets e h =
    grown (data_edge target targets e) (data_edge-ports target targets e k port)
  where
    grown :
        (r : Outcome Endpoint)
        → IfReturned
            (λ (f : Endpoint). contains port (ports_of (lookup k f.publishers.data_pubs)) ≡ (
              if str_eq target k
              then contains port (ports_of (lookup k e.publishers.data_pubs))
                || contains port (map (λ (t : Endpoint). t.consume_port) targets)
              else contains port (ports_of (lookup k e.publishers.data_pubs))))
            r
        → IfReturned
            (λ (f : Endpoint). contains port (ports_of (lookup k f.publishers.data_pubs)) ≡ true)
            r
    grown (raised x) g = tt
    grown (returned f) g = ground (arith, g, h)

data_edge-reaches :
    (port : ℕ) (target : String) (targets : List Endpoint) (e : Endpoint)
    → Receives port targets
    → IfReturned
        (λ (f : Endpoint). contains port (ports_of (lookup target f.publishers.data_pubs)) ≡ true)
        (data_edge target targets e)
data_edge-reaches port target targets e h =
    reached (data_edge target targets e) (data_edge-ports target targets e target port)
  where
    reached :
        (r : Outcome Endpoint)
        → IfReturned
            (λ (f : Endpoint). contains port (ports_of (lookup target f.publishers.data_pubs)) ≡ (
              if str_eq target target
              then contains port (ports_of (lookup target e.publishers.data_pubs))
                || contains port (map (λ (t : Endpoint). t.consume_port) targets)
              else contains port (ports_of (lookup target e.publishers.data_pubs))))
            r
        → IfReturned
            (λ (f : Endpoint).
              contains port (ports_of (lookup target f.publishers.data_pubs)) ≡ true)
            r
    reached (raised x) g = tt
    reached (returned f) g = ground (arith, g, h, eq_iff target target)

connect_producers-Reaches :
    (port : ℕ) (target : String) (targets es : List Endpoint)
    → Receives port targets
    → IfReturned (Reaches target port) (connect_producers data_edge target targets es)
unfolding connect_producers
connect_producers-Reaches port target targets [] h = tt
connect_producers-Reaches port target targets (e ∷ es) h =
    cons-All _ (data_edge target targets e) (connect_producers data_edge target targets es)
      (data_edge-reaches port target targets e h)
      (connect_producers-Reaches port target targets es h)

pub wire_edge-Reaches :
    (port : ℕ) (node_id target : String) (d : Mailboxes) (ts es : Option (List Endpoint))
    → lookup target d ≡ ts
    → HoldsAt target (Receives port) d
    → IfReturned
        (HoldsAt node_id (Reaches target port))
        (wire_edge data_edge node_id target d ts es)
wire_edge-Reaches port node_id target d none es t h = tt
wire_edge-Reaches port node_id target d (some ts) none t h = tt
wire_edge-Reaches port node_id target d (some ts) (some es) t (gs, found, held) =
    let same : gs ≡ ts = ground (arith, found, t) in
    stored (connect_producers data_edge target ts es)
      (connect_producers-Reaches port target ts es (subst (Receives port) same held))
  where
    stored :
        (r : Outcome (List Endpoint))
        → IfReturned (Reaches target port) r
        → IfReturned (HoldsAt node_id (Reaches target port)) (store node_id d r)
    stored (raised x) k = tt
    stored (returned fs) k =
        (fs, ground (arith, eq_iff node_id node_id, lookup-assign node_id node_id fs d), k)
