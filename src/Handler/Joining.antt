-- ===== src/Handler/Joining.antt =====
-- Join requests, join responses and peer discovery (src/MessageHandler.cpp).
use peer_to_peer_network_ove.Prelude.{
  ℕ, ◌^◌, ◌-◌, ◌<◌, ◌≤◌, ◌≡◌, ◌∙◌, ap, if◌then◌else◌, Bool, false, List, ◌++◌, length, arith,
}
use peer_to_peer_network_ove.Prelude.Int.{negsuc}
use peer_to_peer_network_ove.Common.{NodeId, Message, TimePoint}
use peer_to_peer_network_ove.Outcome.{ok, fault, length_error}
use peer_to_peer_network_ove.Wire.Bytes.{bytes_le, read_le-bytes_le}
use peer_to_peer_network_ove.Wire.ListRoundtrip.{deserialize-flag}
use peer_to_peer_network_ove.Network.{Poco}
use peer_to_peer_network_ove.Topology.{discover_peers, limit_peers}
use peer_to_peer_network_ove.World.{World}
use peer_to_peer_network_ove.Handler.{
  create_join_response, handle_join_response, handle_peer_discovery, requested_peers,
}

-- A join response that createJoinResponse makes, for fewer than 2^24 peers, has no effect when
-- handleJoinResponse handles it, on whichever node.
pub handle_join_response-create :
    (env : Poco) (now : TimePoint) (target : NodeId) (accepted : Bool) (peers : List NodeId)
    (sender receiver : World)
    → length peers < 2 ^ 24
    → handle_join_response env now (create_join_response now target accepted peers sender) receiver
      ≡ ok (tt, receiver)
unfolding handle_join_response create_join_response
handle_join_response-create env now target accepted peers sender receiver short =
    rw (deserialize-flag (if accepted then 1 else 0) peers (ground arith) short)

requested_peers-negative :
    (n : ℕ) (rest : List ℕ)
    → 2 ^ 31 ≤ n
    → n < 2 ^ 32
    → requested_peers (bytes_le 4 n ++ rest) ≡ negsuc (2 ^ 32 - 1 - n)
unfolding requested_peers bytes_le
requested_peers-negative n rest low high = let back = read_le-bytes_le 4 n high in ground arith

-- A request for a negative number of peers, one whose payload begins with an int32 from 2^31 on,
-- makes handlePeerDiscovery throw std::length_error, if the topology's mutex is free.
pub handle_peer_discovery-length_error :
    (env : Poco) (now : TimePoint) (m : Message) (n : ℕ) (rest : List ℕ) (w : World)
    → w.topology.topology_mutex ≡ false
    → 2 ^ 31 ≤ n
    → n < 2 ^ 32
    → m.payload ≡ bytes_le 4 n ++ rest
    → handle_peer_discovery env now m w ≡ fault length_error
unfolding handle_peer_discovery discover_peers limit_peers
handle_peer_discovery-length_error env now m n rest w free low high starts =
    let negative = ap requested_peers starts ∙ requested_peers-negative n rest low high in
    ground arith
