-- ===== src/Mailbox/Snapshot/Examples.antt =====
-- A mailbox with one data edge and one control edge, as it crosses to a child process.

use data_pipeline_orchestrat.Base.{ℕ, some, [], ◌∷◌}
use data_pipeline_orchestrat.Mailbox.Inbound.{drop_oldest, new_inbound}
use data_pipeline_orchestrat.Mailbox.Snapshot.{Turn, Mailbox}

abbrev turn : Turn
turn = record { session_id = some "call"; turn_id = some 4 }

abbrev asr : Mailbox ℕ
asr = record {
  name = "asr";
  inbound = new_inbound drop_oldest 5;
  publishers = record {
    data_pubs = ("tts", record { connected_ports = 6001 ∷ 6002 ∷ [] }) ∷ [];
    control_pubs = ("tts", record { connected_ports = 6101 ∷ [] } ∷ []) ∷ [];
  };
  consume_port = 6000;
  control_consume_port = 6100;
  cancelled_turns = turn ∷ [];
}
