-- ===== src/World/Isolation.antt =====
-- What all calls of the managers keep of the objects that they share: the node keeps its identifier
-- and a well-formed table of peers, the topology is idle, and the network is silent.
use peer_to_peer_network_ove.Prelude.{◌≡◌}
use peer_to_peer_network_ove.Common.{NodeId, NetworkAddress}
use peer_to_peer_network_ove.Outcome.{Action, ok}
use peer_to_peer_network_ove.Outcome.Holds.{Keeps, Holds-then}
use peer_to_peer_network_ove.Node.{Node, add_peer, remove_peer}
use peer_to_peer_network_ove.Node.Invariant
use peer_to_peer_network_ove.Network.{Network}
use peer_to_peer_network_ove.Network.Isolation.{IsSilent}
use peer_to_peer_network_ove.Topology.{Topology}
use peer_to_peer_network_ove.Topology.Keeping.{IsIdle}
use peer_to_peer_network_ove.World.{World, on_topology, on_network}
use peer_to_peer_network_ove.Prelude.{◌∙◌}

pub record IsIsolated (id : NodeId) (w : World) : Type 0 where
  pub same : w.node.node_id ≡ id
  pub peers : Invariant.IsWellFormed w.node
  pub idle : IsIdle w.topology
  pub silent : IsSilent w.network

module _ (id : NodeId) where
  pub with_topology :
      (w : World) (t : Topology)
      → IsIsolated id w
      → IsIdle t
      → IsIsolated id (record w { topology = t })
  with_topology w t h idle = record {
    same = h.same;
    peers = h.peers;
    idle = idle;
    silent = h.silent;
  }

  pub with_network :
      (w : World) (n : Network)
      → IsIsolated id w
      → IsSilent n
      → IsIsolated id (record w { network = n })
  with_network w n h silent = record {
    same = h.same;
    peers = h.peers;
    idle = h.idle;
    silent = silent;
  }

  pub with_node :
      (w : World) (n : Node)
      → IsIsolated id w
      → n.node_id ≡ id
      → Invariant.IsWellFormed n
      → IsIsolated id (record w { node = n })
  with_node w n h same peers = record {
    same = same;
    peers = peers;
    idle = h.idle;
    silent = h.silent;
  }

  pub on_topology-Keeps :
      {A : Type 0} (m : Action Topology A) → Keeps IsIdle m → Keeps (IsIsolated id) (on_topology m)
  on_topology-Keeps m keep w h =
      Holds-then IsIdle (IsIsolated id) (m w.topology) (λ a t. ok (a, record w { topology = t }))
        (keep w.topology h.idle) (λ a t. with_topology w t h)

  pub on_network-Keeps :
      {A : Type 0} (f : Network → A × Network)
      → ((n : Network) → IsSilent n → IsSilent (f n).1)
      → Keeps (IsIsolated id) (on_network f)
  on_network-Keeps f keep w h = with_network w (f w.network).1 h (keep w.network h.silent)

  pub add_peer-IsIsolated :
      (k : NodeId) (a : NetworkAddress) (w : World)
      → IsIsolated id w
      → IsIsolated id (record w { node = (add_peer w.node k a).0 })
  add_peer-IsIsolated k a w h =
      with_node w (add_peer w.node k a).0 h (Invariant.add_peer-id w.node k a ∙ h.same)
        (Invariant.add_peer-IsWellFormed w.node k a h.peers)

  pub remove_peer-IsIsolated :
      (k : NodeId) (w : World)
      → IsIsolated id w
      → IsIsolated id (record w { node = (remove_peer w.node k).0 })
  remove_peer-IsIsolated k w h =
      with_node w (remove_peer w.node k).0 h (Invariant.remove_peer-id w.node k ∙ h.same)
        (Invariant.remove_peer-IsWellFormed w.node k h.peers)
