-- ===== src/Network.antt =====
-- include/NetworkManager.h and src/NetworkManager.cpp: the TCP server, the connections to peers and
-- the messages that go over them. What the sockets of Poco do is a parameter.
pub mod Delivery
pub mod Isolation
use peer_to_peer_network_ove.Prelude.{
  ℕ, zero, suc, ◌+◌, ◌-◌, ◌==◌, ltb, if◌then◌else◌, Bool, true, false, not, ◌&&◌, List, [], ◌∷◌,
  ◌++◌, length, take, drop, is_empty, mem, erase_set, Option, some, none,
}
use peer_to_peer_network_ove.Common.{NodeId, NetworkAddress, Message}
use peer_to_peer_network_ove.Node.{Node}
use peer_to_peer_network_ove.Wire.{header_bytes, read_header, read_payload_size}
use peer_to_peer_network_ove.Wire.{to_uint32}

-- The outcome of each call of Poco, by the number of calls before it: true if it returns, false if
-- it throws a Poco::Exception; and the bytes that stand in `char header[32]` before it is filled.
pub record Poco : Type 0 where
  pub binds : ℕ → ℕ → Bool
  pub connects : ℕ → NetworkAddress → Bool
  pub sends : ℕ → NodeId → Bool
  pub stack_bytes : ℕ → List ℕ

pub record Network : Type 0 where
  -- the keys of activeConnections_
  pub active_connections : List NodeId
  pub server_running : Bool
  pub sent_message_count : ℕ
  -- the calls of Poco that were made, and what was handed to sendBytes, the latest last
  pub poco_calls : ℕ
  pub sent_bytes : List (NodeId × List ℕ)

-- The constructor.
unfoldable pub new_network : Network
new_network = record {
  active_connections = [];
  server_running = false;
  sent_message_count = 0;
  poco_calls = 0;
  sent_bytes = [];
}

-- A call of Poco that is made with the outcome `b`.
abbrev pub called : Network → Network
called n = record n { poco_calls = n.poco_calls + 1 }

unfoldable pub stop_server : Network → Network
stop_server n = record n { server_running = false }

unfoldable pub is_connected_to : NodeId → Network → Bool
is_connected_to peer n = mem peer n.active_connections

pub disconnect_from_peer : NodeId → Network → Bool × Network
disconnect_from_peer peer n =
    if mem peer n.active_connections
    then (true, record n { active_connections = erase_set peer n.active_connections })
    else (false, n)

module _ (env : Poco) where
  unfoldable pub start_server : ℕ → Network → Bool × Network
  start_server port n =
      if n.server_running
      then (false, n)
      else if env.binds n.poco_calls port
      then (true, record (called n) { server_running = true })
      else (false, called n)

  -- The socket is connected and dropped: no entry of activeConnections_ is made.
  unfoldable pub connect_to_peer : NetworkAddress → Network → Bool × Network
  connect_to_peer address n = (env.connects n.poco_calls address, called n)

  -- One sendBytes.
  pub send_bytes : NodeId → List ℕ → Network → Bool × Network
  send_bytes peer bytes n =
      if env.sends n.poco_calls peer
      then (true, record (called n) { sent_bytes = n.sent_bytes ++ (peer, bytes) ∷ [] })
      else (false, called n)

  -- The 32 bytes of the header: 29 are filled.
  pub padded_header : Message → Network → List ℕ
  padded_header m n = header_bytes m ++ take 3 (drop 29 (env.stack_bytes n.poco_calls))

  -- The payload, where there is one, and the count.
  pub send_payload : NodeId → Message → Bool × Network → Bool × Network
  unfolding send_bytes
  send_payload peer m (false, n) = (false, n)
  send_payload peer m (true, n) =
      let size = to_uint32 (length m.payload) in
      let (sent, n') = if ltb 0 size then send_bytes peer (take size m.payload) n else (true, n) in
      (sent, (if sent then record n' { sent_message_count = n'.sent_message_count + 1 } else n'))

  unfoldable pub send_message_to_peer : NodeId → Message → Network → Bool × Network
  unfolding send_payload send_bytes
  send_message_to_peer peer m n =
      if mem peer n.active_connections
      then send_payload peer m (send_bytes peer (padded_header m n) n)
      else (false, n)

  -- The loop over the peers; `success` is false once a send failed.
  unfoldable pub broadcast_loop : Message → NodeId → List NodeId → Bool → Network → Bool × Network
  broadcast_loop m exclude [] success n = (success, n)
  broadcast_loop m exclude (peer ∷ peers) success n =
      let skip = broadcast_loop m exclude peers success n in
      let (sent, n') = send_message_to_peer peer m n in
      let next = broadcast_loop m exclude peers (success && sent) n' in
      if peer == exclude then skip else next

  unfoldable pub broadcast_message : Node → Message → NodeId → Network → Bool × Network
  unfolding broadcast_loop
  broadcast_message node m exclude n = broadcast_loop m exclude node.peer_ids true n

-- A vector of `n` zeros whose first cells are overwritten.
pub fill : ℕ → List ℕ → List ℕ
fill zero bytes = []
fill (suc n) [] = 0 ∷ fill n []
fill (suc n) (b ∷ bytes) = b ∷ fill n bytes

-- PeerConnectionHandler::run, for what the two calls of receiveBytes deliver: the header array keeps
-- its old bytes where nothing was received, and the payload vector its zeros.
pub received_message : List ℕ → List ℕ → List ℕ → Option Message
received_message stack [] body = none
received_message stack (b ∷ head) body =
    let header = b ∷ (head ++ drop (suc (length head)) stack) in
    let size = read_payload_size header in
    let blank : Message = record {
      type = 5;
      sender_id = 0;
      receiver_id = 0;
      payload = [];
      timestamp = 0;
    } in
    let m : Message = read_header header blank in some (record m { payload = fill size body })
