-- ===== src/Registration/Rollback.antt =====
-- What acceptRegistration (src/NodeRegistration.cpp) does to the topology: it adds a node, and takes it
-- back if the node cannot be a peer.
use peer_to_peer_network_ove.Prelude.{
  ◌==◌, ◌≡◌, ◌∙◌, inl, inr, if◌then◌else◌, false, some, [], lookup, contains, insert, erase,
  erase_set, map_values, lookup-insert, lookup-erase, arith, Bool-cases, ==_refl, ==_iff,
}
use peer_to_peer_network_ove.Common.{NodeId, NetworkAddress}
use peer_to_peer_network_ove.Topology.{Topology, add_node_body, remove_node_body}
use peer_to_peer_network_ove.Topology.Graph.{
  IsWellFormed, has_edge, has_edge-insert, has_edge-remove,
}

-- The registered addresses and the edges are the same.
pub record SameGraph (t u : Topology) : Type 0 where
  pub same_registry : (j : NodeId) → lookup j t.node_registry ≡ lookup j u.node_registry
  pub same_edges : (i j : NodeId) → has_edge t.adjacency_list i j ≡ has_edge u.adjacency_list i j

module _ (k : NodeId) (t : Topology) (w : IsWellFormed t)
    (new : contains k t.node_registry ≡ false) where
  no-edge_to : (i : NodeId) → has_edge t.adjacency_list i k ≡ false
  no-edge_to i = elim (Bool-cases (has_edge t.adjacency_list i k)) [
    | inl edge ↦ ground (arith, w.between_nodes i k edge)
    | inr apart ↦ apart
  ]

  no-edge_from : (j : NodeId) → has_edge t.adjacency_list k j ≡ false
  no-edge_from j = w.symmetric k j ∙ no-edge_to j

  added_removed :
      (address : NetworkAddress)
      → (remove_node_body k (add_node_body k address t).1).1 ≡ record t {
        node_registry = erase k (insert k address t.node_registry);
        adjacency_list = map_values (erase_set k) (erase k (insert k [] t.adjacency_list));
      }
  unfolding remove_node_body add_node_body
  added_removed address = ground (arith, lookup-insert k k address t.node_registry, ==_refl k)

  pub remove-add-SameGraph :
      (address : NetworkAddress) → SameGraph (remove_node_body k (add_node_body k address t).1).1 t
  remove-add-SameGraph address = rw (added_removed address) (record {
    same_registry = λ j. ground (
      arith,
      ==_iff k j,
      lookup-erase j k (insert k address t.node_registry),
      lookup-insert j k address t.node_registry,
    );
    same_edges = λ i j. ground (
      arith,
      ==_iff k i,
      ==_iff k j,
      no-edge_to i,
      no-edge_from j,
      has_edge-remove k i j (insert k [] t.adjacency_list),
      has_edge-insert k i j [] t.adjacency_list,
    );
  })

pub added_lookup :
    (k : NodeId) (address : NetworkAddress) (t : Topology)
    → contains k t.node_registry ≡ false
    → (j : NodeId)
    → lookup j (add_node_body k address t).1.node_registry
      ≡ (if k == j then some address else lookup j t.node_registry)
unfolding add_node_body
added_lookup k address t new j = ground (arith, lookup-insert j k address t.node_registry)
