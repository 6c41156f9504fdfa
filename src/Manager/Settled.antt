-- ===== src/Manager/Settled.antt =====
-- What every call of src/DynamicNodeManager.cpp keeps: the shared objects stay isolated, nodesMutex_
-- is free again, and the local node is never one of the managed nodes.
use peer_to_peer_network_ove.Prelude.{
  ◌≡◌, ◌==◌, refl, if◌then◌else◌, Bool, true, false, inl, inr, sym, subst, contains, lookup-insert,
  lookup-erase, insert, erase, ltb, Bool-cases, arith,
}
use peer_to_peer_network_ove.Common.{NodeId, NetworkAddress, TimePoint, max_peers}
use peer_to_peer_network_ove.Outcome.{Action, ok, fault, deadlock}
use peer_to_peer_network_ove.Outcome.Holds.{Keeps, Holds-if, Holds-then, >>=-Keeps}
use peer_to_peer_network_ove.Node.{get_peer_count}
use peer_to_peer_network_ove.Network.{Poco}
use peer_to_peer_network_ove.Topology
use peer_to_peer_network_ove.Topology.Keeping
use peer_to_peer_network_ove.World.{World, on_topology}
use peer_to_peer_network_ove.World.Isolation.{IsIsolated, on_topology-Keeps}
use peer_to_peer_network_ove.Manager.{
  Manager, NodeInfo, active, joining, node_added, tell, in_world, lock_nodes, change_info, new_info,
  validate_node_addition, finish_add, add_node, add_node_with_validation,
}
use peer_to_peer_network_ove.Manager.Repair.{add_and_connect}
use peer_to_peer_network_ove.Manager.Repair.Isolation.{add_and_connect-IsIsolated}
use peer_to_peer_network_ove.Prelude.{Option-cases}
use peer_to_peer_network_ove.Manager.{lookup}
use peer_to_peer_network_ove.Prelude.{==_iff}
use peer_to_peer_network_ove.Manager.Deadlock.{change_info-world}
use peer_to_peer_network_ove.Manager.{add_body}
use peer_to_peer_network_ove.Prelude.{◌∙◌}

-- For the local node's identifier, and whether nodesMutex_ is held.
abbrev pub IsSettled : NodeId → Bool → Manager → Type 0
IsSettled id locked g =
    IsIsolated id g.world × (g.nodes_mutex ≡ locked) × (contains id g.node_registry ≡ false)

module _ (id : NodeId) where
  pub in_world-Keeps :
      {A : Type 0} (locked : Bool) (m : Action World A)
      → Keeps (IsIsolated id) m
      → Keeps (IsSettled id locked) (in_world m)
  in_world-Keeps locked m keep g h =
      Holds-then (IsIsolated id) (IsSettled id locked) (m g.world)
        (λ a w. ok (a, record g { world = w })) (keep g.world h.0) (λ a w q. (q, h.1, h.2))

  pub lock_nodes-Keeps :
      {A : Type 0} (body : Action Manager A)
      → Keeps (IsSettled id true) body
      → Keeps (IsSettled id false) (lock_nodes body)
  unfolding lock_nodes
  lock_nodes-Keeps body keep g h =
      let held = record g { nodes_mutex = true } in
      Holds-if (IsSettled id false) g.nodes_mutex (fault deadlock) _ tt (
        Holds-then (IsSettled id true) (IsSettled id false) (body held)
          (λ a u. ok (a, record u { nodes_mutex = false })) (keep held (h.0, refl, h.2))
          (λ a u q. (q.0, refl, q.2)))

  change_info-mutex :
      (k : NodeId) (f : NodeInfo → NodeInfo) (g : Manager)
      → (change_info k f g).nodes_mutex ≡ g.nodes_mutex
  unfolding change_info
  change_info-mutex k f g = ground arith

  change_info-contains :
      (k j : NodeId) (f : NodeInfo → NodeInfo) (g : Manager)
      → contains j (change_info k f g).node_registry ≡ contains j g.node_registry
  unfolding change_info
  change_info-contains k j f g = elim (Option-cases (lookup k g.node_registry)) [
    | inl none_ ↦ ground arith
    | inr (info, some_) ↦ ground (arith, lookup-insert j k (f info) g.node_registry, ==_iff k j)
  ]

  pub change_info-IsSettled :
      (k : NodeId) (f : NodeInfo → NodeInfo) (g : Manager)
      → IsSettled id true g
      → IsSettled id true (change_info k f g)
  change_info-IsSettled k f g h = (
    subst (IsIsolated id) (sym (change_info-world k f g)) h.0,
    change_info-mutex k f g ∙ h.1,
    change_info-contains k id f g ∙ h.2,
  )

  pub enter-unregistered :
      (k : NodeId) (info : NodeInfo) (g : Manager)
      → (k == id) ≡ false
      → contains id g.node_registry ≡ false
      → contains id (insert k info g.node_registry) ≡ false
  enter-unregistered k info g other h = ground (arith, lookup-insert id k info g.node_registry)

  pub erase-unregistered :
      (k : NodeId) (g : Manager)
      → contains id g.node_registry ≡ false
      → contains id (erase k g.node_registry) ≡ false
  erase-unregistered k g h = ground (arith, lookup-erase id k g.node_registry)

  module _ (env : Poco) where
    finish_add-Keeps :
        (k : NodeId) (a : NetworkAddress) (now : TimePoint) (added : Bool)
        → (k == id) ≡ false
        → Keeps (IsSettled id true) (finish_add env k a now added)
    unfolding finish_add
    finish_add-Keeps k a now false other g h = (h.0, h.1, erase-unregistered k g h.2)
    finish_add-Keeps k a now true other g h =
        let m = λ (w : World).
          if ltb (get_peer_count w.node) max_peers
          then ok (tt, (add_and_connect env k a w).1)
          else ok (tt, w) in
        Holds-then (IsSettled id true) (IsSettled id true) (in_world m g)
          (λ _ s. ok (
            true,
            tell s.on_node_added (node_added k a)
                (record s { node_registry = insert k (new_info k a active now) s.node_registry }),
          ))
          (in_world-Keeps true m
            (λ w q.
              Holds-if (IsIsolated id) (ltb (get_peer_count w.node) max_peers)
                (ok (tt, (add_and_connect env k a w).1)) (ok (tt, w))
                (add_and_connect-IsIsolated id env k a w q) q)
            g h)
          (λ _ s q. (q.0, q.1, enter-unregistered k (new_info k a active now) s other q.2))

    -- addNode under the lock.
    add_locked-Keeps :
        (k : NodeId) (a : NetworkAddress) (now : TimePoint)
        → (k == id) ≡ false
        → Keeps (IsSettled id true) (add_body env k a now)
    unfolding add_body
    add_locked-Keeps k a now other g h =
        let m = in_world (on_topology (Topology.add_node k a)) in
        Holds-if (IsSettled id true) (contains k g.node_registry) (ok (false, g)) _ h (
          >>=-Keeps (IsSettled id true) m (finish_add env k a now)
            (in_world-Keeps true (on_topology (Topology.add_node k a))
              (on_topology-Keeps id (Topology.add_node k a) (Keeping.add_node-Keeps k a)))
            (λ added. finish_add-Keeps k a now added other)
            (record g { node_registry = insert k (new_info k a joining now) g.node_registry })
            (h.0, h.1, enter-unregistered k (new_info k a joining now) g other h.2))

    validate-other :
        (k : NodeId) (a : NetworkAddress) (g : Manager)
        → IsSettled id false g
        → validate_node_addition k a g ≡ true
        → (k == id) ≡ false
    unfolding validate_node_addition
    validate-other k a g h e = ground (arith, h.0.same)

    pub add_node-Keeps :
        (k : NodeId) (a : NetworkAddress) (now : TimePoint)
        → Keeps (IsSettled id false) (add_node env k a now)
    unfolding add_node
    add_node-Keeps k a now g h = elim (Bool-cases (validate_node_addition k a g)) [
      | inl valid ↦
          rw (valid, add_node)
            (lock_nodes-Keeps (add_body env k a now)
              (add_locked-Keeps k a now (validate-other k a g h valid)) g h)
      | inr invalid ↦ rw (invalid, add_node) h
    ]

    pub add_node_with_validation-Keeps :
        (k : NodeId) (a : NetworkAddress) (now : TimePoint)
        → Keeps (IsSettled id false) (add_node_with_validation env k a now)
    unfolding add_node_with_validation
    add_node_with_validation-Keeps k a now g h =
        let m = in_world (on_topology (Topology.node_exists k)) in
        let next = λ (exists : Bool) (s : Manager).
          if exists then ok (false, s) else add_node env k a now s in
        Holds-if (IsSettled id false) (k == g.world.node.node_id) (ok (false, g)) _ h (
          >>=-Keeps (IsSettled id false) m next
            (in_world-Keeps false (on_topology (Topology.node_exists k))
              (on_topology-Keeps id (Topology.node_exists k) (Keeping.node_exists-Keeps k)))
            (λ exists s q.
              Holds-if (IsSettled id false) exists (ok (false, s)) (add_node env k a now s) q
                (add_node-Keeps k a now s q))
            g h)
