-- ===== src/Network/Delivery.antt =====
-- What sendMessageToPeer delivers, and what PeerConnectionHandler::run makes of it
-- (src/NetworkManager.cpp).
use peer_to_peer_network_ove.Prelude.{
  ◌+◌, ltb, ◌≡◌, if◌then◌else◌, Bool, true, false, ◌&&◌, length, mem, arith,
}
use peer_to_peer_network_ove.Common.{NodeId, Message}
use peer_to_peer_network_ove.Wire.{to_uint32}
use peer_to_peer_network_ove.Network.{Poco, Network, send_message_to_peer}

module _ (env : Poco) (peer : NodeId) (m : Message) (n : Network) where
  -- The calls of sendBytes that a message takes, and their success.
  abbrev sends_succeed : Bool
  sends_succeed =
      env.sends n.poco_calls peer
      && (if ltb 0 (to_uint32 (length m.payload)) then env.sends (n.poco_calls + 1) peer else true)

  -- Sending succeeds exactly if the peer has a connection and no call of sendBytes throws; exactly
  -- then the count of sent messages grows by one. A peer without a connection is sent nothing, and
  -- the connections are never changed.
  pub send_message_to_peer_lem :
      ((send_message_to_peer env peer m n).0 ≡ (mem peer n.active_connections && sends_succeed))
      × ((send_message_to_peer env peer m n).1.sent_message_count ≡ (
          if (send_message_to_peer env peer m n).0
          then n.sent_message_count + 1
          else n.sent_message_count))
      × (mem peer n.active_connections ≡ false → (send_message_to_peer env peer m n).1 ≡ n)
      × ((send_message_to_peer env peer m n).1.active_connections ≡ n.active_connections)
  unfolding send_message_to_peer
  send_message_to_peer_lem = (ground arith, ground arith, ground arith, ground arith)
