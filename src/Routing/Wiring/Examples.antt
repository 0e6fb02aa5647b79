-- ===== src/Routing/Wiring/Examples.antt =====
-- Two nodes, of which the second has two replicas and sends to itself.
use Prim.Native.String.{◌++◌ as text_append}
use data_pipeline_orchestrat.Base.{
  ℕ, ◌+◌, ◌≡◌, refl, String, List, [], ◌∷◌, inl, lookup, assign, Outcome, returned, raised,
}
use data_pipeline_orchestrat.Base
use data_pipeline_orchestrat.Mailbox.Outbound.{add_publisher}
use data_pipeline_orchestrat.Routing.Wiring.{
  NodeConfig, Names, Mailboxes, create_mailboxes, create_replica_mailboxes,
}
use data_pipeline_orchestrat.Routing.Wiring.Edges.{HoldsAt, Reaches}
use data_pipeline_orchestrat.Routing.Wiring.Reached.{create_mailboxes-Reaches}

abbrev names : Names
names = record { ports = λ n. (6000 + n, 7000 + n); suffixed = λ id i. text_append id "#" }

abbrev nodes : List NodeConfig
nodes =
    record {
      id = "asr";
      replicas = Base.ℤ.pos 1;
      outputs = "tts" ∷ [];
      control_outputs = "tts" ∷ [];
    }
    ∷ record { id = "tts"; replicas = Base.ℤ.pos 2; outputs = "tts" ∷ []; control_outputs = [] }
    ∷ []

abbrev wired : Mailboxes
wired = get_or [] (create_mailboxes names nodes)
  where
    get_or : Mailboxes → Outcome Mailboxes → Mailboxes
    get_or d (returned found) = found
    get_or d (raised x) = d

-- The second replica of "tts" receives on port 6002.
create_mailboxes-Reaches_example : HoldsAt "asr" (Reaches "tts" 6002) wired
unfolding create_mailboxes create_replica_mailboxes lookup assign add_publisher
create_mailboxes-Reaches_example =
    create_mailboxes-Reaches 6002 names nodes "asr" "tts" _ wired (inl (refl, inl refl)) refl refl
      refl
