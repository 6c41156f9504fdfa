-- ===== src/Tests/OperationTests.antt =====
-- Runs of operations of the managers over a topology of three nodes without an edge.
use peer_to_peer_network_ove.Prelude.{
  ◌≡◌, refl, true, false, List, [], ◌∷◌, insert, insert_set, erase,
}
use peer_to_peer_network_ove.Prelude.Int.{pos}
use peer_to_peer_network_ove.Outcome.{ok}
use peer_to_peer_network_ove.Common.{NodeId, elapsed_seconds}
use peer_to_peer_network_ove.Node.{is_alive}
use peer_to_peer_network_ove.Topology.{
  repair_ring, find_path, get_node_address, get_node_address_body,
}
use peer_to_peer_network_ove.Topology.Search
use peer_to_peer_network_ove.Topology.Search.Walk.{Walk}
use peer_to_peer_network_ove.Topology.Ring.{find_path-repair_ring}
use peer_to_peer_network_ove.Router.State.{RoutingInfo, shortest_path}
use peer_to_peer_network_ove.Router.{get_next_hop, forward_message, handle_incoming_route}
use peer_to_peer_network_ove.Registration.{is_node_authorized, process_pending_registrations}
use peer_to_peer_network_ove.Manager.{add_nodes_from_list}
use peer_to_peer_network_ove.Discovery.{remove_stale_nodes, request_peer_list}
use peer_to_peer_network_ove.Tests.NodeTests.{two_peers, here_address, there_address}
use peer_to_peer_network_ove.Tests.NetworkTests.{good_sockets}
use peer_to_peer_network_ove.Tests.WireTests.{two_bytes}
use peer_to_peer_network_ove.Tests.RouterTests.{router}
use peer_to_peer_network_ove.Tests.ManagerTests.{manager, three_nodes}
use peer_to_peer_network_ove.Tests.RegistrationTests.{registration}
use peer_to_peer_network_ove.Tests.DiscoveryTests.{discovery}
use peer_to_peer_network_ove.Topology.{connect_ring}
use peer_to_peer_network_ove.Router.{second_or_zero}
use peer_to_peer_network_ove.Registration.{process_all}
use peer_to_peer_network_ove.Discovery.{remove_stale}

-- The node counts as alive for less than the timeout.
is_alive_run :
    (is_alive two_peers 89000000000 (pos 90) ≡ true)
    × (is_alive two_peers 90000000000 (pos 90) ≡ false)
unfolding is_alive elapsed_seconds
is_alive_run = (refl, refl)

-- The ring that repairTopology never reaches.
repair_ring_run :
    (repair_ring (1 ∷ 2 ∷ 3 ∷ []) three_nodes).adjacency_list
    ≡ (1, 2 ∷ 3 ∷ []) ∷ (2, 1 ∷ 3 ∷ []) ∷ (3, 1 ∷ 2 ∷ []) ∷ []
unfolding repair_ring connect_ring insert insert_set
repair_ring_run = refl

find_path-repair_ring_example :
    (p : List NodeId) × (Search.find_path
        (repair_ring (1 ∷ 2 ∷ 3 ∷ []) three_nodes).adjacency_list
        1
        3
      ≡ ok p)
    × Walk (repair_ring (1 ∷ 2 ∷ 3 ∷ []) three_nodes).adjacency_list 1 3 p
find_path-repair_ring_example = find_path-repair_ring (1 ∷ 2 ∷ 3 ∷ []) three_nodes 1 3 refl refl

-- A hop from the table, and none where there is no path.
get_next_hop_run :
    (get_next_hop 3 (record router { routing_table = (3, 2) ∷ [] })
      ≡ ok (2, record router { routing_table = (3, 2) ∷ [] }))
    × (get_next_hop 3 router ≡ ok (0, router))
unfolding get_next_hop second_or_zero find_path Search.find_path
get_next_hop_run = (refl, refl)

abbrev spent : RoutingInfo
spent = record { path = []; hop_count = pos 0; timestamp = 0; strategy = shortest_path }

-- A message without hops left is dropped.
forward_message_run :
    (forward_message good_sockets two_bytes spent router ≡ ok (false, router))
    × (handle_incoming_route good_sockets two_bytes spent router ≡ ok (tt, router))
unfolding forward_message handle_incoming_route
forward_message_run = (refl, refl)

-- The callback allows node 9 alone.
is_node_authorized_run :
    (is_node_authorized 9 registration ≡ ok (true, registration))
    × (is_node_authorized 3 registration ≡ ok (false, registration))
unfolding is_node_authorized get_node_address
is_node_authorized_run = (refl, refl)

-- No request is pending.
process_pending_registrations_run :
    process_pending_registrations 5 registration ≡ ok (tt, registration)
unfolding process_pending_registrations process_all
process_pending_registrations_run = refl

add_nodes_from_list_run :
    add_nodes_from_list good_sockets ((2, there_address) ∷ []) 5 manager ≡ ok ([], manager)
unfolding add_nodes_from_list
add_nodes_from_list_run = refl

-- Entries that are older than the timeout go.
remove_stale_nodes_run :
    (remove_stale_nodes (pos 300) 400000000000 (record discovery {
      discovered_nodes = (2, there_address) ∷ (3, here_address) ∷ [];
      discovery_timestamps = (2, 0) ∷ (3, 200000000000) ∷ [];
    })).discovered_nodes
    ≡ (3, here_address) ∷ []
unfolding remove_stale_nodes remove_stale elapsed_seconds erase
remove_stale_nodes_run = refl

-- A node that the topology does not know is not asked.
request_peer_list_run : request_peer_list good_sockets 9 discovery ≡ ok (false, discovery)
unfolding request_peer_list get_node_address get_node_address_body
request_peer_list_run = refl
