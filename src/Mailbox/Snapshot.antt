-- ===== src/Mailbox/Snapshot.antt =====
-- How a mailbox crosses to the child process of a node: `__getstate__`, `__setstate__` and
-- `from_state` of `ZMQMailbox`, with the control channel of turn cancellations.
pub mod Laws
pub mod Examples
use data_pipeline_orchestrat.Base.{
  ℕ, String, Option, none, some, List, [], ◌∷◌, ◌++◌, map, Bool, true, false, ◌&&◌, ◌||◌, length,
  Dict, ◌==◌, str_eq, Outcome, returned, raised, if◌then◌else◌, Exception, other,
}
use Prim.Native.String.{◌++◌ as text_append}
use data_pipeline_orchestrat.Mailbox.Inbound.{QueuePolicy, Inbound, new_inbound}
use data_pipeline_orchestrat.Mailbox.Outbound.{ZeroQueuePub, Publishers, new_pub}

-- (session_id, turn_id); the turns that the program counts start at 0
pub record Turn : Type 0 where
  pub session_id : Option String
  pub turn_id : Option ℕ

abbrev pub same_session : Option String → Option String → Bool
same_session none none = true
same_session (some a) (some b) = str_eq a b
same_session _ _ = false

abbrev pub same_number : Option ℕ → Option ℕ → Bool
same_number none none = true
same_number (some a) (some b) = a == b
same_number _ _ = false

abbrev pub same_turn : Turn → Turn → Bool
same_turn a b = same_session a.session_id b.session_id && same_number a.turn_id b.turn_id

pub record Mailbox (M : Type 0) : Type 0 where
  pub name : String
  pub inbound : Inbound M
  pub publishers : Publishers
  pub consume_port : ℕ
  pub control_consume_port : ℕ
  -- the set, as the list of its additions
  pub cancelled_turns : List Turn

-- What the control thread reads: a ControlMessage, whose only action is CANCEL, or another object.
pub data Control : Type 0 where
  cancel : Turn → Control
  unexpected : Control

pub has_turn : Turn → List Turn → Bool
has_turn turn [] = false
has_turn turn (t ∷ ts) = same_turn turn t || has_turn turn ts

module _ {M : Type 0} where
  -- One message in `_control_receiver_loop`.
  pub control_receive : Control → Mailbox M → Mailbox M
  control_receive (cancel turn) mb = record mb { cancelled_turns = turn ∷ mb.cancelled_turns }
  control_receive unexpected mb = mb

  pub is_cancelled : Mailbox M → Turn → Bool
  unfolding has_turn
  is_cancelled mb turn = has_turn turn mb.cancelled_turns

-- The dictionary of `__getstate__`, as far as `__setstate__` reads it.
pub record MailboxState : Type 0 where
  pub name : String
  pub message_queue_size : ℕ
  pub queue_policy : QueuePolicy
  pub pub_sockets : Dict (List ℕ)
  pub consume_port : ℕ
  pub control_pub_sockets : Dict (List ℕ)
  pub control_consume_port : ℕ
  pub cancelled_turns : List Turn

-- {target_id: pub.ports for ...}
pub ports_by_target : Dict ZeroQueuePub → Dict (List ℕ)
ports_by_target [] = []
ports_by_target ((target, s) ∷ pubs) = (target, s.connected_ports) ∷ ports_by_target pubs

-- `ZeroQueue.port`: the port that the socket was constructed with, the first of its ports.
abbrev pub port_of : ZeroQueuePub → ℕ
port_of s = elim s.connected_ports [ [] ↦ 0 | p ∷ ps ↦ p ]

pub control_ports_by_target : Dict (List ZeroQueuePub) → Dict (List ℕ)
control_ports_by_target [] = []
control_ports_by_target ((target, pubs) ∷ rest) =
    (target, map port_of pubs) ∷ control_ports_by_target rest

-- One entry of the comprehension before the others; the first error is raised.
abbrev pub entry :
    String → Outcome ZeroQueuePub → Outcome (Dict ZeroQueuePub) → Outcome (Dict ZeroQueuePub)
entry target (raised e) pubs = raised e
entry target (returned s) (raised e) = raised e
entry target (returned s) (returned pubs) = returned ((target, s) ∷ pubs)

-- {target_id: ZeroQueuePub(ports=ports) for ...}
pub connect_by_target : Dict (List ℕ) → Outcome (Dict ZeroQueuePub)
connect_by_target [] = returned []
connect_by_target ((target, ports) ∷ rest) = entry target (new_pub ports) (connect_by_target rest)

pub connect_control_by_target : Dict (List ℕ) → Dict (List ZeroQueuePub)
connect_control_by_target [] = []
connect_control_by_target ((target, ports) ∷ rest) =
    (target, map (λ port. record { connected_ports = port ∷ [] }) ports)
    ∷ connect_control_by_target rest

module _ {M : Type 0} where
  pub get_state : Mailbox M → MailboxState
  unfolding ports_by_target control_ports_by_target
  get_state mb = record {
    name = mb.name;
    message_queue_size = length mb.inbound.queue;
    queue_policy = mb.inbound.policy;
    pub_sockets = ports_by_target mb.publishers.data_pubs;
    consume_port = mb.consume_port;
    control_pub_sockets = control_ports_by_target mb.publishers.control_pubs;
    control_consume_port = mb.control_consume_port;
    cancelled_turns = mb.cancelled_turns;
  }

  -- The state's dictionary around the data sockets that are rebuilt.
  abbrev pub rebuild : MailboxState → Outcome (Dict ZeroQueuePub) → Outcome (Mailbox M)
  rebuild st (raised e) = raised e
  rebuild st (returned pubs) = returned (record {
    name = text_append "PICKLED|" st.name;
    inbound = new_inbound st.queue_policy st.message_queue_size;
    publishers = record {
      data_pubs = pubs;
      control_pubs = connect_control_by_target st.control_pub_sockets;
    };
    consume_port = st.consume_port;
    control_consume_port = st.control_consume_port;
    cancelled_turns = st.cancelled_turns;
  })

  -- `__setstate__`; the two listening sockets bind the ports that the state names.
  pub set_state : MailboxState → Outcome (Mailbox M)
  unfolding connect_by_target connect_control_by_target
  set_state st = rebuild st (connect_by_target st.pub_sockets)
