-- ===== src/Routing/Pipeline/Replicas.antt =====
-- What the replicas of a node are called, by the pipeline and by their error policies.
use data_pipeline_orchestrat.Base.{
  ℕ, suc, ◌≡◌, refl, ap, sym, ◌∙◌, String, some, List, [], ◌∷◌, ◌++◌, true, ltb, length, Dict,
  lookup, returned,
}
use mathlib.Core.List.{append-nil}
use data_pipeline_orchestrat.Routing.Factory.{BuiltNode, Classes, create}
use data_pipeline_orchestrat.Routing.Factory.Laws.{create-id, returned-and_then}
use data_pipeline_orchestrat.Routing.Pipeline.{
  Host, rename, build_replicas, build_entry_nodes, build_nodes,
}

suffixed-rename :
    {W E B F V N : Type 0} (host : Host W E B F V N) (count i : ℕ) (name : String)
    (node : BuiltNode F V N)
    → ltb 1 count ≡ true
    → rename host count i name node ≡ record node { id = host.suffixed name i }
unfolding rename
suffixed-rename host count i name node many = rw many refl

module _ {W F V C N : Type 0} (host : Host W (Dict V) V F V N) (classes : Classes W F V C N)
    (entry : Dict V) (s : String) where
  -- Nodes with suffixed ids from `i` on, one for each mailbox, whose policies have the plain id.
  abbrev pub AreReplicas : ℕ → List V → List (BuiltNode F V N) → Type 0
  AreReplicas i [] nodes = nodes ≡ []
  AreReplicas i (box ∷ boxes) nodes =
      (node : BuiltNode F V N) × (rest : List (BuiltNode F V N)) × (nodes ≡ node ∷ rest)
      × (node.id ≡ host.suffixed s i)
      × (node.error_policy.node_id ≡ s)
      × AreReplicas (suc i) boxes rest

  build_replicas-AreReplicas :
      (count i : ℕ) (boxes : List V) (nodes : List (BuiltNode F V N)) (v : V) (w w1 : W)
      → ((e : Dict V) (b : V) (t : W) → host.create_node e b t ≡ create classes e b t)
      → ltb 1 count ≡ true
      → host.entry_id entry ≡ s
      → lookup "id" entry ≡ some v
      → classes.text_of v ≡ some s
      → build_replicas host count i entry boxes w ≡ (returned nodes, w1)
      → AreReplicas i boxes nodes
  unfolding build_replicas rename
  build_replicas-AreReplicas count i [] nodes v w w1 creates many named has_id is_text h = cc
  build_replicas-AreReplicas count i (box ∷ boxes) nodes v w w1 creates many named has_id is_text
        h =
      let (node, w2, made, rest_made) =
        returned-and_then (host.create_node entry box w) _ nodes w1 h in
      let (rest, w3, others, same) =
        returned-and_then (build_replicas host count (suc i) entry boxes w2) _ nodes w1 rest_made in
      let (_, policy) =
        create-id classes entry box v s w w2 node has_id is_text
          (sym (creates entry box w) ∙ made) in
      let renamed = rename host count i (host.entry_id entry) node in
      let all : nodes ≡ renamed ∷ rest = cc in
      (
        renamed,
        rest,
        all,
        ap (λ x. x.id) (suffixed-rename host count i (host.entry_id entry) node many)
            ∙ ap (λ t. host.suffixed t i) named,
        ap (λ x. x.error_policy.node_id)
              (suffixed-rename host count i (host.entry_id entry) node many)
            ∙ policy,
        build_replicas-AreReplicas count (suc i) boxes rest v w2 w3 creates many named has_id
            is_text others,
      )

  -- The replicas of a node cannot be told apart by what their error policies write. Where an entry
  -- with several mailboxes is built, there is one node for each, in order, with the ids
  -- `suffixed s 0`, `suffixed s 1` and so on; the error policy of each, which names the dead-letter
  -- file, has the id of the entry without a suffix.
  pub replicas_share_policy_id :
      (boxes : List V) (nodes : List (BuiltNode F V N)) (v : V) (w w1 : W)
      → ((e : Dict V) (b : V) (t : W) → host.create_node e b t ≡ create classes e b t)
      → host.entry_id entry ≡ s
      → lookup "id" entry ≡ some v
      → classes.text_of v ≡ some s
      → lookup s host.mailboxes ≡ some boxes
      → ltb 1 (length boxes) ≡ true
      → build_nodes host (entry ∷ []) w ≡ (returned nodes, w1)
      → AreReplicas 0 boxes nodes
  unfolding build_nodes
  replicas_share_policy_id boxes nodes v w w1 creates named has_id is_text routed many h =
      let found : lookup (host.entry_id entry) host.mailboxes ≡ some boxes = rw named routed in
      let (built, w2, made, same) =
        returned-and_then
          (build_entry_nodes host entry (lookup (host.entry_id entry) host.mailboxes) w) _ nodes w1
          h in
      let all : built ++ [] ≡ nodes = cc in
      let whole : built ≡ nodes = sym (append-nil built) ∙ all in
      build_replicas-AreReplicas (length boxes) 0 boxes nodes v w w2 creates many named has_id
        is_text
        (sym (ap (λ m. build_entry_nodes host entry m w) found)
          ∙ made
          ∙ ap (λ b. (returned b, w2)) whole)
