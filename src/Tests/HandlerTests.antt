-- ===== src/Tests/HandlerTests.antt =====
-- src/MessageHandler.cpp on a node with two peers.
use peer_to_peer_network_ove.Prelude.{◌≡◌, refl, true, not, ◌&&◌, ◌||◌, [], ◌∷◌, mem, arith}
use peer_to_peer_network_ove.Common.{NodeId, Message}
use peer_to_peer_network_ove.Outcome.{ok, fault, length_error}
use peer_to_peer_network_ove.Node.{has_peer}
use peer_to_peer_network_ove.Wire.{deserialize_node_list}
use peer_to_peer_network_ove.Wire.Bytes.{bytes_le}
use peer_to_peer_network_ove.Topology.Graph.{is_registered}
use peer_to_peer_network_ove.World.{World}
use peer_to_peer_network_ove.Handler.{
  create_join_response, handle_join_response, handle_peer_discovery, handle_topology_update,
}
use peer_to_peer_network_ove.Handler.Joining.{
  handle_join_response-create, handle_peer_discovery-length_error,
}
use peer_to_peer_network_ove.Handler.Leaving.{handle_topology_update-peers}
use peer_to_peer_network_ove.Tests.NodeTests.{two_peers, two_peers-IsWellFormed}
use peer_to_peer_network_ove.Tests.TopologyTests.{fresh, fresh-IsWellFormed}
use peer_to_peer_network_ove.Tests.RouterTests.{router}
use peer_to_peer_network_ove.Tests.NetworkTests.{good_sockets}

abbrev world : World
world = router.world

handle_join_response-create_example :
    handle_join_response good_sockets 5 (create_join_response 5 2 true (3 ∷ 4 ∷ []) world) world
    ≡ ok (tt, world)
handle_join_response-create_example =
    handle_join_response-create good_sockets 5 2 true (3 ∷ 4 ∷ []) world world (omega arith)

-- The four bytes of -1.
abbrev minus_one : Message
minus_one = record {
  type = 7;
  sender_id = 7;
  receiver_id = 1;
  payload = 255 ∷ 255 ∷ 255 ∷ 255 ∷ [];
  timestamp = 0;
}

handle_peer_discovery-length_error_example :
    handle_peer_discovery good_sockets 5 minus_one world ≡ fault length_error
unfolding bytes_le
handle_peer_discovery-length_error_example =
    handle_peer_discovery-length_error good_sockets 5 minus_one 4294967295 [] world refl
      (omega arith) (omega arith) refl

-- Node 7, a peer, leaves.
abbrev leaving : Message
leaving = record { type = 3; sender_id = 7; receiver_id = 1; payload = []; timestamp = 0 }

-- An update about node 7, which is not registered.
abbrev update : Message
update = record {
  type = 6;
  sender_id = 5;
  receiver_id = 0;
  payload = 1 ∷ 0 ∷ 0 ∷ 0 ∷ 7 ∷ 0 ∷ 0 ∷ 0 ∷ 0 ∷ 0 ∷ 0 ∷ 0 ∷ [];
  timestamp = 0;
}

handle_topology_update-peers_example :
    (s : World) × (handle_topology_update good_sockets 5 update world ≡ ok (tt, s))
    × (s.topology ≡ fresh)
    × (s.network ≡ world.network)
    × ((j : NodeId)
        → has_peer s.node j ≡ (
            has_peer two_peers j
            && (not (mem j (deserialize_node_list update.payload)) || is_registered fresh j)))
handle_topology_update-peers_example =
    handle_topology_update-peers good_sockets 5 update world refl two_peers-IsWellFormed
      fresh-IsWellFormed
