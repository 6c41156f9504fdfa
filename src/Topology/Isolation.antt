-- ===== src/Topology/Isolation.antt =====
-- Routing over TopologyManager (src/TopologyManager.cpp) as it is used: no history creates an edge.
use peer_to_peer_network_ove.Prelude.{◌≡◌, ◌≢◌, refl, inl, inr, false, List, [], arith, ◌∙◌, ap}
use peer_to_peer_network_ove.Common.{NodeId}
use peer_to_peer_network_ove.Outcome.{ok}
use peer_to_peer_network_ove.Topology.{Topology, new_topology, find_path}
use peer_to_peer_network_ove.Topology.Search
use peer_to_peer_network_ove.Topology.Search.{Adjacency}
use peer_to_peer_network_ove.Topology.Search.Walk.{Walk, here, step}
use peer_to_peer_network_ove.Topology.Search.Correct.{find_path-Decides}
use peer_to_peer_network_ove.Topology.Graph.{has_edge}
use peer_to_peer_network_ove.Topology.Calls.{Call, run, run-IsIdle}
use peer_to_peer_network_ove.Topology.Keeping.{IsIdle}

module _ (adj : Adjacency) (no_edge : (u v : NodeId) → has_edge adj u v ≡ false) where
  Walk-stays : {from v : NodeId} {p : List NodeId} → Walk adj from v p → from ≡ v
  Walk-stays here = refl
  Walk-stays (step {u} {v} w edge) = absurd (ground (arith, no_edge u v))

  search-empty : (from to : NodeId) → from ≢ to → Search.find_path adj from to ≡ ok []
  search-empty from to apart =
      let (p, r, d) = find_path-Decides adj from to in
      elim d [ inl (e, _) ↦ r ∙ ap ok e | inr w ↦ absurd (apart (Walk-stays w)) ]

find_path-IsIdle :
    (t : Topology) (from to : NodeId) → IsIdle t → from ≢ to → find_path from to t ≡ ok ([], t)
unfolding find_path
find_path-IsIdle t from to h apart =
    ground (arith, search-empty t.adjacency_list h.quiet.no_edge from to apart)

-- After any history of calls on a new TopologyManager that returns, findPath between two different
-- nodes returns the empty path: no node is ever reachable from another.
pub run-find_path :
    (id : NodeId) (cs : List Call) (t : Topology) (from to : NodeId)
    → run cs (new_topology id) ≡ ok (tt, t)
    → from ≢ to
    → find_path from to t ≡ ok ([], t)
run-find_path id cs t from to e apart = find_path-IsIdle t from to (run-IsIdle id cs t e) apart
