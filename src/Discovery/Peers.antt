-- ===== src/Discovery/Peers.antt =====
-- Which peers discoverPeers finds (src/NodeDiscovery.cpp).
use peer_to_peer_network_ove.Prelude.{
  ℕ, zero, suc, ◌-◌, ◌==◌, leb, ◌≡◌, refl, ap, inl, inr, if◌then◌else◌, true, false, ◌||◌, List, [],
  ◌∷◌, mem, take, keys, arith, Bool-cases,
}
use peer_to_peer_network_ove.Prelude.Int.{ℤ, pos, negsuc}
use peer_to_peer_network_ove.Common.{NodeId, TimePoint}
use peer_to_peer_network_ove.Outcome.{ok}
use peer_to_peer_network_ove.Topology.{get_node_address_body}
use peer_to_peer_network_ove.Topology.Queries.{get_all_node_ids_free, get_node_address_free}
use peer_to_peer_network_ove.World.{World}
use peer_to_peer_network_ove.Discovery.{
  Discovery, is_enough, add_discovered_node, discover_loop, discover_peers, tell, peer_discovered,
}

-- The nodes of a list that are neither the local node nor a peer, and whose address is known.
abbrev pub candidates : World → List NodeId → List NodeId
candidates w [] = []
candidates w (k ∷ ks) =
    if k == w.node.node_id || mem k w.node.peer_ids
    then candidates w ks
    else if (get_node_address_body k w.topology).port == 0
    then candidates w ks
    else k ∷ candidates w ks

-- How many nodes discoverPeers may still find after `n` of them: at least one, whatever the limit.
abbrev pub room : ℤ → ℕ → ℕ
room (negsuc m) n = 1
room (pos m) n = if leb m (suc n) then 1 else m - n

room-enough : (max : ℤ) (n : ℕ) → is_enough max (suc n) ≡ true → room max n ≡ 1
room-enough (negsuc m) n h = refl
room-enough (pos m) n h = ground arith

room-more : (max : ℤ) (n : ℕ) → is_enough max (suc n) ≡ false → room max n ≡ suc (room max (suc n))
room-more (negsuc m) n h = ground arith
room-more (pos m) n h = ground arith

take-nil : (n : ℕ) → ◌≡◌ {A = List NodeId} [] (take n [])
take-nil zero = refl
take-nil (suc n) = refl

module _ (max : ℤ) (now : TimePoint) where
  discover_loop-take :
      (ks : List NodeId) (n : ℕ) (d : Discovery)
      → d.world.topology.topology_mutex ≡ false
      → (s : Discovery) × (discover_loop max now ks n d
          ≡ ok (take (room max n) (candidates d.world ks), s))
        × (s.world ≡ d.world)
  unfolding discover_loop add_discovered_node
  discover_loop-take [] n d free = (d, ap (λ r. ok (r, d)) (take-nil (room max n)), refl)
  discover_loop-take (k ∷ ks) n d free =
      let address = get_node_address_free d.world.topology free k in
      elim (Bool-cases (k == d.world.node.node_id || mem k d.world.node.peer_ids)) [
        | inl skipped ↦
            let (s, ends, same) = discover_loop-take ks n d free in (s, ground (arith, ends), same)
        | inr other ↦ elim (Bool-cases ((get_node_address_body k d.world.topology).port == 0)) [
          | inl unknown ↦
              let (s, ends, same) = discover_loop-take ks n d free in
              (s, ground (arith, ends, address), same)
          | inr known ↦
              let a = get_node_address_body k d.world.topology in
              let found =
                tell d.on_peer_discovered (peer_discovered k a) (add_discovered_node k a now d) in
              elim (Bool-cases (is_enough max (suc n))) [
                | inl enough ↦ (found, ground (arith, address, room-enough max n enough), refl)
                | inr more ↦
                    let (s, ends, same) = discover_loop-take ks (suc n) found free in
                    (s, ground (arith, address, ends, room-more max n more), same)
              ]
        ]
      ]

-- discoverPeers, with the topology's mutex free, returns the first registered nodes, in the order of
-- their identifiers, that are neither the local node nor a peer and have a port: `maxPeers` of
-- them, but one even if `maxPeers` is 0 or negative. It leaves the shared objects as they are.
pub discover_peers-take :
    (max : ℤ) (now : TimePoint) (d : Discovery)
    → d.world.topology.topology_mutex ≡ false
    → (s : Discovery) × (discover_peers max now d
        ≡ ok (take (room max 0) (candidates d.world (keys d.world.topology.node_registry)), s))
      × (s.world ≡ d.world)
unfolding discover_peers
discover_peers-take max now d free =
    let nodes = keys d.world.topology.node_registry in
    let (s, ends, same) = discover_loop-take max now nodes 0 d free in
    (s, ground (arith, get_all_node_ids_free d.world.topology free, ends), same)
