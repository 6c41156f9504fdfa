-- ===== src/Handler.antt =====
-- include/MessageHandler.h and src/MessageHandler.cpp: what is done with each message that arrives,
-- and the messages that are sent. Its only state are the objects that it shares.
pub mod Joining
pub mod Leaving
pub mod Isolation
use peer_to_peer_network_ove.Prelude.{
  ℕ, ◌+◌, ◌-◌, ◌/◌, ◌^◌, ◌==◌, ltb, leb, if◌then◌else◌, Bool, true, false, not, ◌&&◌, ◌||◌, List,
  [], ◌∷◌, length, take,
}
use peer_to_peer_network_ove.Prelude.Int.{ℤ, pos, negsuc}
use peer_to_peer_network_ove.Common.{
  NodeId, NetworkAddress, Message, MessageType, TimePoint, max_peers, join_request, join_response,
  leave_notification, heartbeat, data_message, topology_update, peer_discovery,
}
use peer_to_peer_network_ove.Outcome.{Outcome, Action, ok, fault, ret, ◌>>=◌, ◌>>◌}
use peer_to_peer_network_ove.Node.{Node, has_peer, get_peer_count, remove_peer, update_last_seen}
use peer_to_peer_network_ove.Wire.{serialize_node_list, deserialize_node_list}
use peer_to_peer_network_ove.Wire.Bytes.{bytes_le, read_le}
use peer_to_peer_network_ove.Network.{
  Poco, connect_to_peer, send_message_to_peer, broadcast_message,
}
use peer_to_peer_network_ove.Topology
use peer_to_peer_network_ove.World.{World, on_topology, on_network, on_node}

-- An `int` as its 32 bits, and back.
abbrev pub to_int32 : ℕ → ℤ
to_int32 n = if ltb n (2 ^ 31) then pos n else negsuc (2 ^ 32 - 1 - n)

abbrev pub from_int32 : ℤ → ℕ
from_int32 (pos n) = n
from_int32 (negsuc n) = 2 ^ 32 - 1 - n

module _ (now : TimePoint) where
  -- A message of the local node; getCurrentTimestamp reads the clock in milliseconds.
  abbrev pub own_message : MessageType → NodeId → List ℕ → World → Message
  own_message type target payload w = record {
    type = type;
    sender_id = w.node.node_id;
    receiver_id = target;
    payload = payload;
    timestamp = now / 1000000;
  }

  abbrev pub create_join_request : NodeId → World → Message
  create_join_request target w = own_message join_request target [] w

  pub create_join_response : NodeId → Bool → List NodeId → World → Message
  create_join_response target accepted peers w =
      own_message join_response target ((if accepted then 1 else 0) ∷ serialize_node_list peers) w

  abbrev pub create_leave_notification : NodeId → World → Message
  create_leave_notification target w = own_message leave_notification target [] w

  pub create_heartbeat : NodeId → World → Message
  create_heartbeat target w = own_message heartbeat target [] w

  abbrev pub create_data_message : NodeId → List ℕ → World → Message
  create_data_message target bytes w = own_message data_message target bytes w

  pub create_topology_update : List NodeId → World → Message
  create_topology_update nodes w = own_message topology_update 0 (serialize_node_list nodes) w

  unfoldable pub create_peer_discovery_request : NodeId → ℤ → World → Message
  unfolding bytes_le
  create_peer_discovery_request target max w =
      own_message peer_discovery target (bytes_le 4 (from_int32 max)) w

-- discoverPeers, or no peers if the request is not accepted.
pub suggest : Bool → NodeId → Action World (List NodeId)
suggest true sender = on_topology (Topology.discover_peers sender (pos max_peers))
suggest false sender = ret []

-- `int maxPeers` from the first four bytes of the payload.
pub requested_peers : List ℕ → ℤ
unfolding read_le
requested_peers payload =
    if leb 4 (length payload) then to_int32 (read_le (take 4 payload)) else pos max_peers

-- One round of the loop of handleTopologyUpdate.
pub drop_peer : NodeId → Bool → Action World (Unit {0})
drop_peer k true w = ok (tt, w)
drop_peer k false w = ok (tt, record w { node = (remove_peer w.node k).0 })

pub drop_unknown : List NodeId → Action World (Unit {0})
unfolding drop_peer
drop_unknown [] = ret tt
drop_unknown (k ∷ ks) =
    let rest = drop_unknown ks in
    do exists ← on_topology (Topology.node_exists k); drop_peer k exists; rest

module _ (env : Poco) (now : TimePoint) where
  pub send_to : NodeId → Message → Action World (Unit {0})
  send_to peer m w = ok (tt, record w { network = (send_message_to_peer env peer m w.network).1 })

  -- A join response to the sender of a message.
  pub respond : NodeId → Bool → List NodeId → Action World (Unit {0})
  unfolding send_to create_join_response
  respond target accepted peers w =
      send_to target (create_join_response now target accepted peers w) w

  pub handle_join_request : Message → Action World (Unit {0})
  unfolding suggest respond
  handle_join_request m w =
      let accepted = ltb (get_peer_count w.node) max_peers in
      (do peers ← suggest accepted m.sender_id; respond m.sender_id accepted peers) w

  -- connectToPeer for an address whose port is not 0.
  pub connect_known : NetworkAddress → Action World (Unit {0})
  connect_known address w =
      if address.port == 0
      then ok (tt, w)
      else ok (tt, record w { network = (connect_to_peer env address w.network).1 })

  pub connect_suggested : List NodeId → Action World (Unit {0})
  unfolding connect_known
  connect_suggested [] = ret tt
  connect_suggested (k ∷ ks) =
      let rest = connect_suggested ks in
      let connect = (do
        address ← on_topology (Topology.get_node_address k)
        connect_known address
        rest) in
      λ w. if not (k == w.node.node_id) && not (has_peer w.node k) then connect w else rest w

  pub handle_join_response : Message → Action World (Unit {0})
  unfolding connect_suggested
  handle_join_response m = connect_suggested (deserialize_node_list m.payload)

  -- The broadcast at the end of handleLeaveNotification.
  pub announce : NodeId → Action World (Unit {0})
  unfolding create_topology_update
  announce gone w =
      let update = create_topology_update now (gone ∷ []) w in
      ok (tt, record w { network = (broadcast_message env w.node update gone w.network).1 })

  pub handle_leave_notification : Message → Action World (Unit {0})
  unfolding announce
  handle_leave_notification m w =
      (do removed ← on_topology (Topology.remove_node m.sender_id); announce m.sender_id)
        (record w { node = (remove_peer w.node m.sender_id).0 })

  pub handle_heartbeat : Message → Action World (Unit {0})
  unfolding create_heartbeat
  handle_heartbeat m w =
      let s : World = record w { node = update_last_seen w.node now } in
      send_to m.sender_id (create_heartbeat now m.sender_id s) s

  pub handle_topology_update : Message → Action World (Unit {0})
  unfolding drop_unknown
  handle_topology_update m = do
    drop_unknown (deserialize_node_list m.payload)
    connected ← on_topology Topology.check_network_integrity
    ret tt

  pub handle_peer_discovery : Message → Action World (Unit {0})
  unfolding requested_peers respond
  handle_peer_discovery m = do
    peers ← on_topology (Topology.discover_peers m.sender_id (requested_peers m.payload))
    respond m.sender_id true peers

  -- The handlers that the constructor enters, by message type.
  pub process_message : Message → Action World (Unit {0})
  unfolding handle_join_request handle_join_response handle_leave_notification handle_heartbeat
      handle_topology_update handle_peer_discovery
  process_message m w =
      if m.type == join_request
      then handle_join_request m w
      else if m.type == join_response
      then handle_join_response m w
      else if m.type == leave_notification
      then handle_leave_notification m w
      else if m.type == heartbeat
      then handle_heartbeat m w
      else if m.type == topology_update
      then handle_topology_update m w
      else if m.type == peer_discovery
      then handle_peer_discovery m w
      else ok (tt, w)
