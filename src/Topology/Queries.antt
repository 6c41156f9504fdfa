-- ===== src/Topology/Queries.antt =====
-- The methods of src/TopologyManager.cpp called with the mutex free, as the managers call them.
use peer_to_peer_network_ove.Prelude.{◌≡◌, false, List, keys, contains, arith}
use peer_to_peer_network_ove.Common.{NodeId, NetworkAddress}
use peer_to_peer_network_ove.Outcome.{ok}
use peer_to_peer_network_ove.Topology.{
  Topology, add_node, remove_node, find_path, get_all_node_ids, get_node_address, node_exists,
  add_node_body, remove_node_body, get_node_address_body,
}
use peer_to_peer_network_ove.Topology.Search

module _ (t : Topology) (free : t.topology_mutex ≡ false) where
  pub find_path_free :
      (from to : NodeId) (p : List NodeId)
      → Search.find_path t.adjacency_list from to ≡ ok p
      → find_path from to t ≡ ok (p, t)
  unfolding find_path
  find_path_free from to p e = ground arith

  pub get_all_node_ids_free : get_all_node_ids t ≡ ok (keys t.node_registry, t)
  unfolding get_all_node_ids
  get_all_node_ids_free = ground arith

  pub get_node_address_free :
      (k : NodeId) → get_node_address k t ≡ ok (get_node_address_body k t, t)
  unfolding get_node_address get_node_address_body
  get_node_address_free k = ground arith

  pub node_exists_free : (k : NodeId) → node_exists k t ≡ ok (contains k t.node_registry, t)
  unfolding node_exists
  node_exists_free k = ground arith

  pub add_node_free :
      (k : NodeId) (address : NetworkAddress)
      → add_node k address t ≡ ok (add_node_body k address t)
  unfolding add_node add_node_body
  add_node_free k address = ground arith

  pub remove_node_free : (k : NodeId) → remove_node k t ≡ ok (remove_node_body k t)
  unfolding remove_node remove_node_body
  remove_node_free k = ground arith
