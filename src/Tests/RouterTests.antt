-- ===== src/Tests/RouterTests.antt =====
-- src/MessageRouter.cpp on a node with two peers and an empty topology.
use peer_to_peer_network_ove.Prelude.{
  ◌≡◌, ◌==◌, ◌⊎◌, refl, not, ◌&&◌, if◌then◌else◌, false, true, List, [], ◌∷◌, lookup, contains,
  insert, none,
}
use peer_to_peer_network_ove.Common.{NodeId}
use peer_to_peer_network_ove.Outcome.{ok}
use peer_to_peer_network_ove.Node.{has_peer}
use peer_to_peer_network_ove.Network.{broadcast_message, send_message_to_peer}
use peer_to_peer_network_ove.Topology.Search.Walk.{Walk}
use peer_to_peer_network_ove.Router.State.{Router}
use peer_to_peer_network_ove.Router.{
  find_route, update_routing_table, generate_message_id, is_message_seen, mark_message_seen,
  flood_message, send,
}
use peer_to_peer_network_ove.Router.Table.{
  find_route-Decides, update_routing_table-entries, next_hop,
}
use peer_to_peer_network_ove.Router.Flood.{with_network, flood_message-unseen, flood_message-once}
use peer_to_peer_network_ove.Tests.NodeTests.{two_peers}
use peer_to_peer_network_ove.Tests.TopologyTests.{fresh}
use peer_to_peer_network_ove.Tests.WireTests.{two_bytes}
use peer_to_peer_network_ove.Tests.NetworkTests.{good_sockets, connected}

abbrev pub router : Router
router = record {
  world = record { node = two_peers; network = connected; topology = fresh };
  routing_table = [];
  hop_counts = [];
  route_timestamps = [];
  seen_messages = (40, 1000) ∷ [];
  routed_message_count = 0;
  forwarded_message_count = 0;
  total_hop_count = 0;
}

find_route-Decides_example :
    (route : List NodeId) × (find_route 7 router ≡ ok (route, router))
    × (((true ≡ true) × (route ≡ 1 ∷ 7 ∷ []))
        ⊎ ((true ≡ false)
            × (((route ≡ []) × ((q : List NodeId) → ¬ Walk [] 1 7 q)) ⊎ Walk [] 1 7 route)))
unfolding has_peer
find_route-Decides_example = find_route-Decides router 7 refl

update_routing_table-entries_example :
    (s : Router) × (update_routing_table 5 router ≡ ok (tt, s))
    × (s.world ≡ router.world)
    × ((k : NodeId)
        → lookup k s.routing_table
          ≡ (if contains k fresh.node_registry && not (k == 1) then next_hop [] 1 k else none))
update_routing_table-entries_example = update_routing_table-entries 5 router refl

flood_message-unseen_example :
    let (b, n) = broadcast_message good_sockets two_peers two_bytes 1 connected in
    flood_message good_sockets two_bytes 9 router
    ≡ ok (
      b,
      record (with_network (mark_message_seen (generate_message_id two_bytes) 9 router) n) {
        forwarded_message_count = 1;
      },
    )
unfolding is_message_seen generate_message_id
flood_message-unseen_example = flood_message-unseen good_sockets two_bytes 9 router refl

-- The state after the flood: no peer has a connection.
abbrev flooded : Router
flooded = record router { seen_messages = (40, 1000) ∷ (303, 9) ∷ []; forwarded_message_count = 1 }

flood-flooded : flood_message good_sockets two_bytes 9 router ≡ ok (false, flooded)
unfolding flood_message generate_message_id insert send send_message_to_peer
flood-flooded = refl

flood_message-once_example : flood_message good_sockets two_bytes 10 flooded ≡ ok (false, flooded)
flood_message-once_example =
    flood_message-once good_sockets two_bytes two_bytes 9 10 router flooded false refl flood-flooded
