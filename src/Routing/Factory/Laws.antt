-- ===== src/Routing/Factory/Laws.antt =====
-- What a node is built from, and the name that its error policy gets.
use data_pipeline_orchestrat.Base.{
  ◌≡◌, refl, sym, ap, ◌∙◌, arith, String, Option, none, some, List, [], ◌∷◌, Bool, false, ◌||◌,
  Dict, lookup, assign, lookup-assign, lookup-delete, str_eq, if◌then◌else◌, Outcome, returned,
  raised, other, and_then,
}
use data_pipeline_orchestrat.Policy.Config.{ErrorPolicyConfig, Checked, accepted, refused, validate}
use data_pipeline_orchestrat.Policy.Execute.{ErrorPolicy, new_policy}
use data_pipeline_orchestrat.Routing.Factory.{
  Classes, BuiltNode, popped_keys, pop_keys, arguments, checked_policy, block_of,
  policy_from_config, id_or_type, attach, given, resolve, create_typed, create,
}

abbrev pub has_text : String → List String → Bool
has_text k [] = false
has_text k (j ∷ js) = str_eq j k || has_text k js

lookup-pop_keys :
    {V : Type 0} (k : String) (keys : List String) (d : Dict V)
    → lookup k (pop_keys keys d) ≡ (if has_text k keys then none else lookup k d)
unfolding pop_keys
lookup-pop_keys k [] d = refl
lookup-pop_keys k (j ∷ js) d = lookup-pop_keys k js _ ∙ ground (arith, lookup-delete j k d)

-- The keys that are for the router, the autoscaler and the factory itself do not reach the class of
-- the node; every other key of its entry does, with its value, and so does the mailbox.
pub lookup-arguments :
    {V : Type 0} (k : String) (mailbox : V) (config : Dict V)
    → lookup k (arguments mailbox config) ≡ (
        if has_text k popped_keys
        then none
        else if str_eq "mailbox" k
        then some mailbox
        else lookup k config)
unfolding arguments
lookup-arguments k mailbox config =
    lookup-pop_keys k popped_keys (assign "mailbox" mailbox config)
    ∙ ground (arith, lookup-assign "mailbox" k mailbox config)

pub returned-and_then :
    {W A B : Type 0} (r : Outcome A × W) (f : A → W → Outcome B × W) (b : B) (w' : W)
    → and_then r f ≡ (returned b, w')
    → (a : A) × (w1 : W) × (r ≡ (returned a, w1)) × (f a w1 ≡ (returned b, w'))
returned-and_then (returned a, w1) f b w' h = (a, w1, refl, h)
returned-and_then (raised e, w1) f b w' h = cc

module _ {W F V C N : Type 0} (classes : Classes W F V C N) where
  checked_policy-node_id :
      (s : String) (c : Checked (ErrorPolicyConfig F)) (p : ErrorPolicy F)
      → checked_policy classes s c ≡ returned p
      → p.node_id ≡ s
  unfolding new_policy
  checked_policy-node_id s (accepted c) p h =
      let same : p ≡ new_policy c s = cc in ap (λ q. q.node_id) same
  checked_policy-node_id s (refused e) p h = cc

  attach-id :
      (config : Dict V) (s : String) (n : N) (w w1 : W) (node : BuiltNode F V N)
      → attach classes config s n w ≡ (returned node, w1)
      → (node.id ≡ s) × (node.error_policy.node_id ≡ s)
  unfolding attach policy_from_config
  attach-id config s n w w1 node h =
      let (p, w2, made, same) =
        returned-and_then (policy_from_config classes (lookup "error_policy" config) s, w) _ node w1
          h in
      let named =
        checked_policy-node_id s (validate _ (block_of classes (lookup "error_policy" config))) p
          (ap (λ r. r.0) made) in
      let built : BuiltNode F V N = record {
        instance_of = n;
        id = s;
        error_policy = p;
        health_timeout = given classes (lookup "health_timeout" config);
        health_check_interval = given classes (lookup "health_check_interval" config);
      } in
      let is_built : node ≡ built = cc in
      (ap (λ x. x.id) is_built, ap (λ x. x.error_policy.node_id) is_built ∙ named)

  -- The id of an entry names the node and its policy.
  pub create-id :
      (config : Dict V) (mailbox v : V) (s : String) (w w1 : W) (node : BuiltNode F V N)
      → lookup "id" config ≡ some v
      → classes.text_of v ≡ some s
      → create classes config mailbox w ≡ (returned node, w1)
      → (node.id ≡ s) × (node.error_policy.node_id ≡ s)
  unfolding create
  create-id config mailbox v s w w1 node has_id is_text h = typed (lookup "type" config) h
    where
      built :
          (t : Option String)
          → create_typed classes config mailbox t w ≡ (returned node, w1)
          → (node.id ≡ s) × (node.error_policy.node_id ≡ s)
      built none made = cc
      built (some node_type) made =
          let (c, w2, _, loaded) = returned-and_then (resolve classes node_type w) _ node w1 made in
          let (n, w3, _, attached) =
            returned-and_then (classes.from_config c (arguments mailbox config) w2) _ node w1
              loaded in
          let chosen : id_or_type classes (lookup "id" config) node_type ≡ s =
            rw (has_id, id_or_type, is_text) refl in
          attach-id config s n w3 w1 node
            (ap (λ i. attach classes config i n w3) (sym chosen) ∙ attached)

      typed :
          (t : Option V)
          → elim t as (λ _. Outcome (BuiltNode F V N) × W) [
            | none ↦ (raised (other "KeyError"), w)
            | some u ↦ create_typed classes config mailbox (classes.text_of u) w
          ]
            ≡ (returned node, w1)
          → (node.id ≡ s) × (node.error_policy.node_id ≡ s)
      typed none made = cc
      typed (some u) made = built (classes.text_of u) made
