-- ===== src/Mailbox/Outbound.antt =====
-- The sending side of a mailbox: `ZeroQueuePub` of zero_queue/zero_pub.py, and the publishers of
-- `ZMQMailbox` by target node, for data and for control. A socket is the list of the ports that it
-- is connected to; what ZeroMQ does with a message that is put on it is outside.
pub mod Laws
pub mod Examples
use data_pipeline_orchestrat.Base.{
  ℕ, String, Option, none, some, List, [], ◌∷◌, ◌++◌, map, Bool, true, false, ltb, length, contains,
  Dict, lookup, assign, delete, Exception, value_error, other, Outcome, returned, raised,
  if◌then◌else◌, ◌==◌,
}

pub record ZeroQueuePub : Type 0 where
  pub connected_ports : List ℕ

-- list.remove: the first occurrence goes
abbrev pub remove_first : ℕ → List ℕ → List ℕ
remove_first p [] = []
remove_first p (q ∷ qs) = if p == q then qs else q ∷ remove_first p qs

unfoldable pub connect_additional : ℕ → ZeroQueuePub → ZeroQueuePub
connect_additional port pub_socket =
    if contains port pub_socket.connected_ports
    then pub_socket
    else record { connected_ports = pub_socket.connected_ports ++ port ∷ [] }

-- for port in ports: connect_additional(port)
unfoldable pub connect_all : List ℕ → ZeroQueuePub → ZeroQueuePub
unfolding connect_additional
connect_all [] pub_socket = pub_socket
connect_all (port ∷ ports) pub_socket = connect_all ports (connect_additional port pub_socket)

-- ZeroQueuePub(ports=ports): the first port at the construction, the others one by one.
unfoldable pub new_pub : List ℕ → Outcome ZeroQueuePub
unfolding connect_all
new_pub [] = raised value_error
new_pub (port ∷ ports) = returned (connect_all ports (record { connected_ports = port ∷ [] }))

pub disconnect_additional : ℕ → ZeroQueuePub → Outcome ZeroQueuePub
disconnect_additional port pub_socket =
    if contains port pub_socket.connected_ports
    then (if ltb 1 (length pub_socket.connected_ports)
        then returned (record { connected_ports = remove_first port pub_socket.connected_ports })
        else raised value_error)
    else raised value_error

-- pub_sockets and control_pub_sockets
pub record Publishers : Type 0 where
  pub data_pubs : Dict ZeroQueuePub
  pub control_pubs : Dict (List ZeroQueuePub)

-- What an operation on the publishers leaves, the state also where it raises.
abbrev pub Update : Type 0
Update = Outcome (Unit {0}) × Publishers

abbrev pub register : String → Publishers → Outcome ZeroQueuePub → Update
register target p (returned pub_socket) =
    (returned tt, record p { data_pubs = assign target pub_socket p.data_pubs })
register target p (raised e) = (raised e, p)

-- The two branches of `add_publisher`, by what is registered for the target.
unfoldable pub publish : Option ZeroQueuePub → String → List ℕ → Publishers → Update
unfolding connect_all new_pub
publish (some pub_socket) target ports p =
    (returned tt, record p { data_pubs = assign target (connect_all ports pub_socket) p.data_pubs })
publish none target ports p = register target p (new_pub ports)

unfoldable pub add_publisher : String → List ℕ → Publishers → Update
unfolding publish
add_publisher target ports p = publish (lookup target p.data_pubs) target ports p

-- dict.pop raises KeyError for a target that is not there
pub remove_publisher : String → Publishers → Update
remove_publisher target p = elim (lookup target p.data_pubs) [
  | some pub_socket ↦ (returned tt, record p { data_pubs = delete target p.data_pubs })
  | none ↦ (raised (other "KeyError"), p)
]

-- setdefault(target_id, [])
abbrev pub pubs_of : Option (List ZeroQueuePub) → List ZeroQueuePub
pubs_of none = []
pubs_of (some pubs) = pubs

-- One socket of its own for each port, since a control message is broadcast.
unfoldable pub add_control_publisher : String → List ℕ → Publishers → Publishers
add_control_publisher target ports p = record p {
  control_pubs =
      assign target
        (pubs_of (lookup target p.control_pubs)
          ++ map (λ port. record { connected_ports = port ∷ [] }) ports)
        p.control_pubs;
}

pub remove_control_publisher : String → Publishers → Update
remove_control_publisher target p = elim (lookup target p.control_pubs) [
  | some pubs ↦ (returned tt, record p { control_pubs = delete target p.control_pubs })
  | none ↦ (raised (other "KeyError"), p)
]

-- The sockets that `send` puts a message on, in order: one for each target.
pub send_sockets : Dict ZeroQueuePub → List ZeroQueuePub
send_sockets [] = []
send_sockets ((target, pub_socket) ∷ pubs) = pub_socket ∷ send_sockets pubs

-- The sockets that `send_control` puts a message on: every replica of every target.
pub send_control_sockets : Dict (List ZeroQueuePub) → List ZeroQueuePub
send_control_sockets [] = []
send_control_sockets ((target, pubs) ∷ rest) = pubs ++ send_control_sockets rest
