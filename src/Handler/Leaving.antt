-- ===== src/Handler/Leaving.antt =====
-- Leave notifications and topology updates (src/MessageHandler.cpp).
use peer_to_peer_network_ove.Prelude.{
  ◌≡◌, ◌∙◌, refl, ap, sym, subst, inl, inr, false, not, ◌&&◌, ◌||◌, List, [], ◌∷◌, mem, arith,
  Bool-cases, ==_iff,
}
use peer_to_peer_network_ove.Common.{NodeId, Message, TimePoint}
use peer_to_peer_network_ove.Outcome.{ok}
use peer_to_peer_network_ove.Node.{has_peer, remove_peer}
use peer_to_peer_network_ove.Node.Invariant
use peer_to_peer_network_ove.Network.{Poco}
use peer_to_peer_network_ove.Wire.{deserialize_node_list}
use peer_to_peer_network_ove.Topology.{Topology}
use peer_to_peer_network_ove.Topology.Graph.{IsWellFormed, is_registered}
use peer_to_peer_network_ove.Topology.Queries.{node_exists_free}
use peer_to_peer_network_ove.Topology.Connectivity.{check_network_integrity-counts}
use peer_to_peer_network_ove.World.{World}
use peer_to_peer_network_ove.Handler.{drop_unknown, handle_topology_update}

drop_unknown-peers :
    (ks : List NodeId) (w : World)
    → w.topology.topology_mutex ≡ false
    → Invariant.IsWellFormed w.node
    → (s : World) × (drop_unknown ks w ≡ ok (tt, s))
      × (s.topology ≡ w.topology)
      × (s.network ≡ w.network)
      × ((j : NodeId)
          → has_peer s.node j
            ≡ (has_peer w.node j && (not (mem j ks) || is_registered w.topology j)))
unfolding drop_unknown
drop_unknown-peers [] w free n = (w, refl, refl, refl, λ j. ground arith)
drop_unknown-peers (k ∷ ks) w free n = elim (Bool-cases (is_registered w.topology k)) [
  | inl known ↦
      let (s, ends, same, net, peers) = drop_unknown-peers ks w free n in
      (
        s,
        ground (arith, node_exists_free w.topology free k, ends),
        same,
        net,
        λ j. ground (arith, peers j, ==_iff k j),
      )
  | inr unknown ↦
      let without : World = record w { node = (remove_peer w.node k).0 } in
      let (s, ends, same, net, peers) =
        drop_unknown-peers ks without free (Invariant.remove_peer-IsWellFormed w.node k n) in
      (
        s,
        ground (arith, node_exists_free w.topology free k, ends),
        same,
        net,
        λ j. ground (arith, peers j, Invariant.has_peer-remove_peer w.node k j n, ==_iff k j),
      )
]

-- handleTopologyUpdate, with the topology's mutex free and node and topology well-formed, returns. It
-- drops exactly the peers that the message lists and that are not registered, and changes
-- neither the topology nor the network.
pub handle_topology_update-peers :
    (env : Poco) (now : TimePoint) (m : Message) (w : World)
    → w.topology.topology_mutex ≡ false
    → Invariant.IsWellFormed w.node
    → IsWellFormed w.topology
    → (s : World) × (handle_topology_update env now m w ≡ ok (tt, s))
      × (s.topology ≡ w.topology)
      × (s.network ≡ w.network)
      × ((j : NodeId)
          → has_peer s.node j ≡ (
              has_peer w.node j
              && (not (mem j (deserialize_node_list m.payload)) || is_registered w.topology j)))
unfolding handle_topology_update
handle_topology_update-peers env now m w free n t =
    let (s, ends, same, net, peers) =
      drop_unknown-peers (deserialize_node_list m.payload) w free n in
    let check =
      check_network_integrity-counts s.topology (subst IsWellFormed (sym same) t)
        (ap (λ (u : Topology). u.topology_mutex) same ∙ free) in
    (s, ground (arith, ends, check), same, net, peers)
