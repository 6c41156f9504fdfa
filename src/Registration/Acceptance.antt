-- ===== src/Registration/Acceptance.antt =====
-- acceptRegistration (src/NodeRegistration.cpp): a node that joins, and the rollback.
use peer_to_peer_network_ove.Prelude.{
  ◌==◌, leb, ◌≡◌, ◌∙◌, refl, ap, inl, inr, if◌then◌else◌, Bool, true, false, not, some, lookup,
  contains, arith, Bool-cases,
}
use peer_to_peer_network_ove.Common.{NodeId, NetworkAddress, max_peers}
use peer_to_peer_network_ove.Outcome.{ok}
use peer_to_peer_network_ove.Node.{has_peer, get_peer_count, add_peer}
use peer_to_peer_network_ove.Topology.{Topology, add_node_body, remove_node_body}
use peer_to_peer_network_ove.Topology.Graph.{IsWellFormed}
use peer_to_peer_network_ove.Topology.Queries.{add_node_free, remove_node_free}
use peer_to_peer_network_ove.Registration.Rollback.{SameGraph, remove-add-SameGraph, added_lookup}
use peer_to_peer_network_ove.Registration.{
  Registration, registered, accept_registration, mark_pending,
}

abbrev pub IsFree : Registration → Type 0
IsFree r = r.world.topology.topology_mutex ≡ false

abbrev pub is_known : NodeId → Registration → Bool
is_known k r = contains k r.world.topology.node_registry

add_node_body_free :
    (k : NodeId) (address : NetworkAddress) (t : Topology)
    → (add_node_body k address t).1.topology_mutex ≡ t.topology_mutex
unfolding add_node_body
add_node_body_free k address t = ground arith

module _ (k : NodeId) (address : NetworkAddress) (r : Registration) (free : IsFree r) where
  abbrev with_node : Topology
  with_node = (add_node_body k address r.world.topology).1

  accept_known : is_known k r ≡ true → accept_registration k address r ≡ ok (false, r)
  unfolding accept_registration add_node_body
  accept_known known = ground (arith, add_node_free r.world.topology free k address)

  accept_peered :
      is_known k r ≡ false
      → (add_peer r.world.node k address).1 ≡ true
      → accept_registration k address r
        ≡ ok (
          true,
          mark_pending k registered (record r {
            world = record r.world {
              node = (add_peer r.world.node k address).0;
              topology = with_node;
            };
          }),
        )
  unfolding accept_registration add_node_body
  accept_peered new peered = ground (arith, add_node_free r.world.topology free k address)

  accept_unpeered :
      is_known k r ≡ false
      → (add_peer r.world.node k address).1 ≡ false
      → accept_registration k address r
        ≡ ok (
          false,
          record r {
            world = record r.world {
              node = (add_peer r.world.node k address).0;
              topology = (remove_node_body k with_node).1;
            };
          },
        )
  unfolding accept_registration add_node_body
  accept_unpeered new unpeered = ground (
    arith,
    add_node_free r.world.topology free k address,
    remove_node_free with_node (add_node_body_free k address r.world.topology ∙ free) k,
  )

  pub accept_registration_result :
      is_known k r ≡ false
      → leb max_peers (get_peer_count r.world.node) ≡ false
      → (s : Registration) × (accept_registration k address r
          ≡ ok (not (has_peer r.world.node k), s))
  unfolding add_peer
  accept_registration_result new room = elim (Bool-cases (has_peer r.world.node k)) [
    | inl peer ↦
        let ends = accept_unpeered new (ground arith) in
        (
          record r {
            world = record r.world {
              node = (add_peer r.world.node k address).0;
              topology = (remove_node_body k with_node).1;
            };
          },
          ground arith,
        )
    | inr other ↦
        let ends = accept_peered new (ground arith) in
        (
          mark_pending k registered (record r {
            world = record r.world {
              node = (add_peer r.world.node k address).0;
              topology = with_node;
            };
          }),
          ground arith,
        )
  ]

mark_pending-world : (k : NodeId) (r : Registration) → (mark_pending k registered r).world ≡ r.world
unfolding mark_pending
mark_pending-world k r = ground arith

add_peer_unpeered :
    (r : Registration) (k : NodeId) (address : NetworkAddress)
    → (add_peer r.world.node k address).1 ≡ false
    → (add_peer r.world.node k address).0 ≡ r.world.node
unfolding add_peer
add_peer_unpeered r k address h = ground arith

-- acceptRegistration, with the topology's mutex free and the topology well-formed, returns. If it
-- returns true the node was unknown, is registered with its address and is added as a peer; if
-- it returns false the local node and the network are as before, and the topology has the same
-- registered addresses and the same edges.
pub accept_registration_lem :
    (k : NodeId) (address : NetworkAddress) (r : Registration)
    → IsFree r
    → IsWellFormed r.world.topology
    → (accepted : Bool) × (s : Registration) × (accept_registration k address r ≡ ok (accepted, s))
      × (s.world.network ≡ r.world.network)
      × (accepted ≡ true
          → (is_known k r ≡ false)
            × (s.world.node ≡ (add_peer r.world.node k address).0)
            × ((add_peer r.world.node k address).1 ≡ true)
            × ((j : NodeId)
                → lookup j s.world.topology.node_registry
                  ≡ (if k == j then some address else lookup j r.world.topology.node_registry)))
      × (accepted ≡ false
          → (s.world.node ≡ r.world.node) × SameGraph s.world.topology r.world.topology)
unfolding add_node_body
accept_registration_lem k address r free w = elim (Bool-cases (is_known k r)) [
  | inl known ↦ (
    false,
    r,
    accept_known k address r free known,
    refl,
    λ e. ground arith,
    λ e. (refl, record { same_registry = λ j. refl; same_edges = λ i j. refl }),
  )
  | inr new ↦ elim (Bool-cases (add_peer r.world.node k address).1) [
    | inl peered ↦
        let s : Registration = record r {
          world = record r.world {
            node = (add_peer r.world.node k address).0;
            topology = with_node k address r free;
          };
        } in
        let same = mark_pending-world k s in
        let entry = λ (j : NodeId).
          ap (λ v. lookup j v.topology.node_registry) same
          ∙ added_lookup k address r.world.topology new j in
        (
          true,
          mark_pending k registered s,
          accept_peered k address r free new peered,
          ground arith,
          λ e. (new, ground arith, peered, λ j. entry j),
          λ e. ground arith,
        )
    | inr unpeered ↦ (
      false,
      record r {
        world = record r.world {
          node = (add_peer r.world.node k address).0;
          topology = (remove_node_body k (with_node k address r free)).1;
        };
      },
      accept_unpeered k address r free new unpeered,
      refl,
      λ e. ground arith,
      λ e. (
        add_peer_unpeered r k address unpeered,
        remove-add-SameGraph k r.world.topology w new address,
      ),
    )
  ]
]
