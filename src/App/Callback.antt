-- ===== src/App/Callback.antt =====
-- The callback that main (src/main.cpp) sets on the discovery, which is to add the discovered peers.
use peer_to_peer_network_ove.Prelude.{
  ◌≡◌, ◌∙◌, ◌||◌, refl, ap, sym, subst, suc, ℕ, Bool, true, false, if◌then◌else◌, ◌==◌, contains,
  mem, mem-keys, keys, List, [], ◌∷◌, ◌++◌, arith,
}
use peer_to_peer_network_ove.Prelude.Int.{ℤ}
use peer_to_peer_network_ove.Common.{NodeId, NetworkAddress, TimePoint}
use peer_to_peer_network_ove.Outcome.{ok, ret, ◌>>=◌, bind_ok}
use peer_to_peer_network_ove.Network.{Poco}
use peer_to_peer_network_ove.Topology
use peer_to_peer_network_ove.Topology.{Topology}
use peer_to_peer_network_ove.Topology.Queries.{
  get_node_address_free, node_exists_free, get_all_node_ids_free,
}
use peer_to_peer_network_ove.Topology.{get_node_address_body}
use peer_to_peer_network_ove.World.{World, on_topology}
use peer_to_peer_network_ove.Discovery.{
  Discovery, DiscoveryNotice, peer_discovered, discovery_failed, tell, add_discovered_node,
  is_enough, discover_loop,
}
use peer_to_peer_network_ove.Outcome.Holds.{Keeps, Holds, Holds-ok, Holds-if, >>=-Keeps, if-Keeps}
use peer_to_peer_network_ove.Discovery
use peer_to_peer_network_ove.Manager.{add_node_with_validation}
use peer_to_peer_network_ove.Overlay.{Overlay, in_manager}
use peer_to_peer_network_ove.Discovery.Peers.{discover_peers-take, room, candidates}
use peer_to_peer_network_ove.App.State.Stable.{IsStableApp}
use peer_to_peer_network_ove.App.{App, world, in_discovery, run_callbacks}
use peer_to_peer_network_ove.Prelude.{==_refl}
use peer_to_peer_network_ove.Prelude.{take}

-- The discovered nodes stand in the topology.
abbrev pub Known : Topology → List DiscoveryNotice → Type 0
Known t [] = Unit {0}
Known t (peer_discovered k a ∷ notices) = (contains k t.node_registry ≡ true) × Known t notices
Known t (discovery_failed a ∷ notices) = Known t notices

module _ (env : Poco) (now : TimePoint) where
  -- addNodeWithValidation of a node of the topology does nothing.
  add_known :
      (k : NodeId) (a : NetworkAddress) (o : Overlay)
      → o.world.topology.topology_mutex ≡ false
      → contains k o.world.topology.node_registry ≡ true
      → in_manager (add_node_with_validation env k a now) o
        ≡ ok (false, record o { manager = record o.manager { world = o.world } })
  unfolding add_node_with_validation
  add_known k a o free known = ground (arith, node_exists_free o.world.topology free k)

  run_callbacks-Known :
      (notices : List DiscoveryNotice) (o : Overlay)
      → o.world.topology.topology_mutex ≡ false
      → Known o.world.topology notices
      → (u : Overlay) × (run_callbacks env now notices o ≡ ok (tt, u))
        × (u.world ≡ o.world)
        × (u.discovery ≡ o.discovery)
        × (u.manager.node_registry ≡ o.manager.node_registry)
  unfolding run_callbacks
  run_callbacks-Known [] o free all = (o, refl, refl, refl, refl)
  run_callbacks-Known (discovery_failed a ∷ notices) o free all =
      run_callbacks-Known notices o free all
  run_callbacks-Known (peer_discovered k a ∷ notices) o free all =
      let s = record o { manager = record o.manager { world = o.world } } in
      let (u, ends, same, found, registry) = run_callbacks-Known notices s free all.1 in
      (
        u,
        bind_ok (in_manager (add_node_with_validation env k a now))
              (λ _. run_callbacks env now notices) o false s (add_known k a o free all.0)
            ∙ ends,
        same,
        found,
        registry,
      )

-- What the loop of discoverPeers keeps: the shared objects, and that what it reports is known.
abbrev IsReported : World → Discovery → Type 0
IsReported w d = (d.world ≡ w) × Known w.topology d.discovery_notices

Known-append :
    (t : Topology) (k : NodeId) (a : NetworkAddress) (notices : List DiscoveryNotice)
    → contains k t.node_registry ≡ true
    → Known t notices
    → Known t (notices ++ peer_discovered k a ∷ [])
Known-append t k a [] known all = (known, tt)
Known-append t k a (peer_discovered j b ∷ notices) known all =
    (all.0, Known-append t k a notices known all.1)
Known-append t k a (discovery_failed b ∷ notices) known all = Known-append t k a notices known all

tell-Known :
    (w : World) (k : NodeId) (a : NetworkAddress) (now : TimePoint) (set : Bool) (d : Discovery)
    → contains k w.topology.node_registry ≡ true
    → IsReported w d
    → IsReported w (tell set (peer_discovered k a) (add_discovered_node k a now d))
unfolding add_discovered_node
tell-Known w k a now true d known h =
    (h.0, Known-append w.topology k a d.discovery_notices known h.1)
tell-Known w k a now false d known h = h

module _ (w : World) (free : w.topology.topology_mutex ≡ false) (max : ℤ) (now : TimePoint) where
  ask-Keeps :
      (k : NodeId)
      → Keeps (IsReported w) (Discovery.in_world (on_topology (Topology.get_node_address k)))
  ask-Keeps k d h =
      let unlocked = ap (λ (v : World). v.topology.topology_mutex) h.0 ∙ free in
      let asked : Discovery.in_world (on_topology (Topology.get_node_address k)) d
          ≡ ok (get_node_address_body k d.world.topology, d) =
        ground (arith, get_node_address_free d.world.topology unlocked k) in
      subst (Holds (IsReported w)) (sym asked) h

  discover_loop-IsReported :
      (ks : List NodeId) (n : ℕ)
      → ((j : NodeId) → mem j ks ≡ true → contains j w.topology.node_registry ≡ true)
      → Keeps (IsReported w) (discover_loop max now ks n)
  unfolding discover_loop
  discover_loop-IsReported [] n all = λ d h. h
  discover_loop-IsReported (k ∷ ks) n all = λ d h.
      let others = λ (j : NodeId) (m : mem j ks ≡ true). all j (ground arith) in
      let rest = discover_loop max now ks n in
      let more = discover_loop max now ks (suc n) in
      let tail = if is_enough max (suc n) then ret [] else more in
      let found = λ (a : NetworkAddress) (u : Discovery).
        tell u.on_peer_discovered (peer_discovered k a) (add_discovered_node k a now u) in
      let next = λ (a : NetworkAddress) (u : Discovery).
        if a.port == 0 then rest u else (tail >>= λ ns. ret (k ∷ ns)) (found a u) in
      let P = IsReported w in
      let ask = Discovery.in_world (on_topology (Topology.get_node_address k)) in
      Holds-if P (k == d.world.node.node_id || mem k d.world.node.peer_ids) (rest d)
        ((ask >>= next) d) (discover_loop-IsReported ks n others d h)
        (>>=-Keeps P ask next (ask-Keeps k)
          (λ a u q. Holds-if P (a.port == 0) (rest u) _ (discover_loop-IsReported ks n others u q) (
            >>=-Keeps P tail (λ ns. ret (k ∷ ns))
              (if-Keeps P (is_enough max (suc n)) (ret []) more (λ v r. r)
                (discover_loop-IsReported ks (suc n) others))
              (λ ns v r. r) (found a u)
              (tell-Known w k a now u.on_peer_discovered u (all k (ground (arith, ==_refl k))) q)))
          d h)

  discover_peers-IsReported :
      (d : Discovery) → IsReported w d → Holds (IsReported w) (Discovery.discover_peers max now d)
  unfolding Discovery.discover_peers
  discover_peers-IsReported d h =
      let unlocked = ap (λ (v : World). v.topology.topology_mutex) h.0 ∙ free in
      let asked : Discovery.discover_peers max now d
          ≡ discover_loop max now (keys d.world.topology.node_registry) 0 d =
        ground (arith, get_all_node_ids_free d.world.topology unlocked) in
      let looped = λ (v : World).
        Holds (IsReported w) (discover_loop max now (keys v.topology.node_registry) 0 d) in
      subst (Holds (IsReported w)) (sym asked) (
        subst looped (sym h.0) (
          discover_loop-IsReported (keys w.topology.node_registry) 0
            (λ j m. sym (mem-keys j w.topology.node_registry) ∙ m) d h))

-- discoverPeers as main calls it, with stable managers, returns. Its callback, which is to add the
-- discovered peers, adds none: they are nodes of the topology, and these addNodeWithValidation
-- refuses. The shared objects and the managed nodes are as before.
pub discover_peers-adds_none :
    (id : NodeId) (env : Poco) (max : ℤ) (now : TimePoint) (s : App)
    → IsStableApp id s
    → (u : App) × (in_discovery env now (Discovery.discover_peers max now) s
        ≡ ok (take (room max 0) (candidates (world s) (keys (world s).topology.node_registry)), u))
      × (world u ≡ world s)
      × (u.overlay.manager.node_registry ≡ s.overlay.manager.node_registry)
unfolding in_discovery
discover_peers-adds_none id env max now s h =
    let w = world s in
    let free = h.0.idle.free in
    let d = record s.overlay.discovery { world = w; discovery_notices = [] } in
    let (e, ends, same) = discover_peers-take max now d free in
    let reported =
      Holds-ok (IsReported w) _ e (discover_peers-IsReported w free max now d (refl, tt)) ends in
    let o = record s.overlay { world = e.world; discovery = e } in
    let unlocked = ap (λ (v : World). v.topology.topology_mutex) same ∙ free in
    let known = subst (λ (v : World). Known v.topology e.discovery_notices) (sym same) reported.1 in
    let (v, called, kept, left, registry) =
      run_callbacks-Known env now e.discovery_notices o unlocked known in
    (record s { overlay = v }, ground (arith, ends, called), kept ∙ same, registry)
