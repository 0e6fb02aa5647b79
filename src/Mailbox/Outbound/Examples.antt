-- ===== src/Mailbox/Outbound/Examples.antt =====
-- The laws of the publishers at a socket with two ports.
use data_pipeline_orchestrat.Base.{[], ◌∷◌, lookup}
use data_pipeline_orchestrat.Mailbox.Outbound.{ZeroQueuePub, Publishers, add_publisher}
use data_pipeline_orchestrat.Mailbox.Outbound.Laws.{IsConnected, add_publisher-IsConnected}

abbrev two_ports : ZeroQueuePub
two_ports = record { connected_ports = 6001 ∷ 6002 ∷ [] }

abbrev to_tts : Publishers
to_tts = record { data_pubs = ("tts", two_ports) ∷ []; control_pubs = [] }

nothing-IsConnected : IsConnected (record { data_pubs = []; control_pubs = [] })
unfolding lookup
nothing-IsConnected = record { at_target = λ k s e. absurd cc }

add_publisher-IsConnected_example :
    IsConnected
      (add_publisher "tts" (6001 ∷ 6001 ∷ []) (record { data_pubs = []; control_pubs = [] })).1
add_publisher-IsConnected_example =
    add_publisher-IsConnected "tts" (6001 ∷ 6001 ∷ [])
      (record { data_pubs = []; control_pubs = [] }) nothing-IsConnected
