-- ===== src/Topology/Keeping.antt =====
-- What every call of src/TopologyManager.cpp keeps: the graph has no edge, and the mutex is free again.
use peer_to_peer_network_ove.Prelude.{◌≡◌, refl, inl, inr, Bool, true, false, [], length, arith}
use peer_to_peer_network_ove.Prelude.Int.{ℤ}
use peer_to_peer_network_ove.Common.{NodeId, NetworkAddress}
use peer_to_peer_network_ove.Outcome.{Outcome, Action, ok}
use peer_to_peer_network_ove.Topology.{
  Topology, limit_peers, available_peers, get_node_address_body, new_topology, add_node,
  remove_node, update_node_address, discover_peers, node_exists, get_node_address, get_all_node_ids,
  get_network_size, find_path, get_neighbors, update_topology, validate_topology,
  is_topology_connected, check_network_integrity, repair_topology, add_bootstrap_node,
  add_node_body, remove_node_body, update_node_address_body, lock_guard,
}
use peer_to_peer_network_ove.Topology.Search
use peer_to_peer_network_ove.Topology.Graph.{
  IsWellFormed, has_edge, add_node_body-IsWellFormed, remove_node_from_graph-IsWellFormed,
}
use peer_to_peer_network_ove.Topology.Connectivity.{repair_topology-deadlock}
use peer_to_peer_network_ove.Topology.Graph.{new_topology-IsWellFormed}
use peer_to_peer_network_ove.Topology.{query}
use peer_to_peer_network_ove.Topology.{pure_body}
use peer_to_peer_network_ove.Topology.Graph.{has_edge-insert}
use peer_to_peer_network_ove.Prelude.{subst}
use peer_to_peer_network_ove.Prelude.{Bool-cases}
use peer_to_peer_network_ove.Topology.{is_topology_connected_body}
use peer_to_peer_network_ove.Topology.Graph.{is_registered}
use peer_to_peer_network_ove.Topology.Connectivity.{validate_topology_lem}
use peer_to_peer_network_ove.Prelude.{lookup-insert}
use peer_to_peer_network_ove.Topology.Graph.{has_edge-remove}
use peer_to_peer_network_ove.Prelude.{keys}
use peer_to_peer_network_ove.Prelude.{contains}
use peer_to_peer_network_ove.Outcome.{deadlock, fault}
use peer_to_peer_network_ove.Prelude.{sym}
use peer_to_peer_network_ove.Outcome.Holds.{Holds, Keeps, Holds-if, Holds-then, >>=-Keeps}

-- The graph is well formed and has no edge.
pub record IsQuiet (t : Topology) : Type 0 where
  pub well_formed : IsWellFormed t
  pub no_edge : (u v : NodeId) → has_edge t.adjacency_list u v ≡ false

-- What holds between calls: the mutex is free too.
pub record IsIdle (t : Topology) : Type 0 where
  pub free : t.topology_mutex ≡ false
  pub quiet : IsQuiet t

IsQuiet-mutex : {t : Topology} (b : Bool) → IsQuiet t → IsQuiet (record t { topology_mutex = b })
IsQuiet-mutex b q = record {
  well_formed = record {
    same_nodes = q.well_formed.same_nodes;
    symmetric = q.well_formed.symmetric;
    no_loop = q.well_formed.no_loop;
    between_nodes = q.well_formed.between_nodes;
  };
  no_edge = q.no_edge;
}

pub new_topology-IsIdle : (id : NodeId) → IsIdle (new_topology id)
unfolding new_topology
new_topology-IsIdle id = record {
  free = refl;
  quiet = record { well_formed = new_topology-IsWellFormed id; no_edge = λ u v. refl };
}

lock_guard-Keeps :
    {A : Type 0} (body : Action Topology A)
    → ((t : Topology) → IsQuiet t → Holds IsQuiet (body t))
    → Keeps IsIdle (lock_guard body)
unfolding lock_guard
lock_guard-Keeps body keep t h =
    let held = record t { topology_mutex = true } in
    Holds-if IsIdle t.topology_mutex (fault deadlock) _ tt (
      Holds-then IsQuiet IsIdle (body held) (λ a u. ok (a, record u { topology_mutex = false }))
        (keep held (IsQuiet-mutex true h.quiet))
        (λ a u q. record { free = refl; quiet = IsQuiet-mutex false q }))

query-Holds :
    {A : Type 0} (t : Topology)
    → IsQuiet t
    → (r : Outcome A) → Holds IsQuiet (elim r [ fault e ↦ fault e | ok a ↦ ok (a, t) ])
query-Holds t q (ok a) = q
query-Holds t q (fault e) = tt

query-Keeps : {A : Type 0} (f : Topology → Outcome A) → Keeps IsIdle (lock_guard (query f))
query-Keeps f = lock_guard-Keeps (query f) (λ t q. query-Holds t q (f t))

pure_body-Keeps :
    {A : Type 0} (f : Topology → A × Topology)
    → ((t : Topology) → IsQuiet t → IsQuiet (f t).1)
    → Keeps IsIdle (lock_guard (pure_body f))
pure_body-Keeps f keep = lock_guard-Keeps (pure_body f) keep

module _ (k : NodeId) (address : NetworkAddress) (t : Topology) (q : IsQuiet t) where
  add_node_body-IsQuiet : IsQuiet (add_node_body k address t).1
  unfolding add_node_body
  add_node_body-IsQuiet = record {
    well_formed = add_node_body-IsWellFormed t q.well_formed k address;
    no_edge = λ u v. ground (arith, has_edge-insert k u v [] t.adjacency_list, q.no_edge u v);
  }

  update_node_address_body-IsQuiet : IsQuiet (update_node_address_body k address t).1
  unfolding update_node_address_body
  update_node_address_body-IsQuiet = elim (Bool-cases (is_registered t k)) [
    | inr unknown ↦ rw (unknown, update_node_address_body) q
    | inl known ↦
        rw (known, update_node_address_body)
          (record {
            well_formed = record {
              same_nodes = λ u.
                  ground
                    (arith, lookup-insert u k address t.node_registry, q.well_formed.same_nodes u);
              symmetric = q.well_formed.symmetric;
              no_loop = q.well_formed.no_loop;
              between_nodes = λ u v e. ground (
                arith,
                lookup-insert v k address t.node_registry,
                q.well_formed.between_nodes u v e,
              );
            };
            no_edge = q.no_edge;
          })
  ]

remove_node_body-IsQuiet :
    (k : NodeId) (t : Topology) → IsQuiet t → IsQuiet (remove_node_body k t).1
unfolding remove_node_body
remove_node_body-IsQuiet k t q = elim (Bool-cases (is_registered t k)) [
  | inr unknown ↦ rw (unknown, remove_node_body) q
  | inl known ↦
      rw (known, remove_node_body)
        (record {
          well_formed = remove_node_from_graph-IsWellFormed t q.well_formed k;
          no_edge = λ u v. ground (arith, has_edge-remove k u v t.adjacency_list, q.no_edge u v);
        })
]

module _ (k : NodeId) where
  pub add_node-Keeps : (a : NetworkAddress) → Keeps IsIdle (add_node k a)
  unfolding add_node
  add_node-Keeps a = pure_body-Keeps (add_node_body k a) (add_node_body-IsQuiet k a)

  pub update_node_address-Keeps : (a : NetworkAddress) → Keeps IsIdle (update_node_address k a)
  unfolding update_node_address
  update_node_address-Keeps a =
      pure_body-Keeps (update_node_address_body k a) (update_node_address_body-IsQuiet k a)

  pub remove_node-Keeps : Keeps IsIdle (remove_node k)
  unfolding remove_node
  remove_node-Keeps = pure_body-Keeps (remove_node_body k) (remove_node_body-IsQuiet k)

  pub discover_peers-Keeps : (max : ℤ) → Keeps IsIdle (discover_peers k max)
  unfolding discover_peers
  discover_peers-Keeps max =
      query-Keeps (λ t. limit_peers (available_peers k t.local_id (keys t.node_registry)) max)

  pub node_exists-Keeps : Keeps IsIdle (node_exists k)
  unfolding node_exists
  node_exists-Keeps = query-Keeps (λ t. ok (contains k t.node_registry))

  pub get_node_address-Keeps : Keeps IsIdle (get_node_address k)
  unfolding get_node_address
  get_node_address-Keeps = query-Keeps (λ t. ok (get_node_address_body k t))

  pub get_neighbors-Keeps : Keeps IsIdle (get_neighbors k)
  unfolding get_neighbors
  get_neighbors-Keeps = query-Keeps (λ t. ok (Search.neighbors t.adjacency_list k))

  pub find_path-Keeps : (to : NodeId) → Keeps IsIdle (find_path k to)
  unfolding find_path
  find_path-Keeps to = query-Keeps (λ t. Search.find_path t.adjacency_list k to)

pub get_all_node_ids-Keeps : Keeps IsIdle get_all_node_ids
unfolding get_all_node_ids
get_all_node_ids-Keeps = query-Keeps (λ t. ok (keys t.node_registry))

pub get_network_size-Keeps : Keeps IsIdle get_network_size
unfolding get_network_size
get_network_size-Keeps = query-Keeps (λ t. ok (length t.node_registry))

pub update_topology-Keeps : Keeps IsIdle update_topology
unfolding update_topology
update_topology-Keeps = query-Keeps (λ t. ok tt)

pub is_topology_connected-Keeps : Keeps IsIdle is_topology_connected
unfolding is_topology_connected
is_topology_connected-Keeps = query-Keeps is_topology_connected_body

pub validate_topology-Keeps : Keeps IsIdle validate_topology
validate_topology-Keeps t h =
    subst (Holds IsIdle) (sym (validate_topology_lem t h.quiet.well_formed h.free)) h

pub check_network_integrity-Keeps : Keeps IsIdle check_network_integrity
unfolding check_network_integrity
check_network_integrity-Keeps =
    >>=-Keeps IsIdle validate_topology (λ _. is_topology_connected) validate_topology-Keeps
      (λ _. is_topology_connected-Keeps)

pub repair_topology-Keeps : Keeps IsIdle repair_topology
repair_topology-Keeps t h = subst (Holds IsIdle) (sym (repair_topology-deadlock t)) tt

pub add_bootstrap_node-IsIdle :
    (a : NetworkAddress) (t : Topology) → IsIdle t → IsIdle (add_bootstrap_node a t)
unfolding add_bootstrap_node
add_bootstrap_node-IsIdle a t h = record {
  free = h.free;
  quiet = record {
    well_formed = record {
      same_nodes = h.quiet.well_formed.same_nodes;
      symmetric = h.quiet.well_formed.symmetric;
      no_loop = h.quiet.well_formed.no_loop;
      between_nodes = h.quiet.well_formed.between_nodes;
    };
    no_edge = h.quiet.no_edge;
  };
}
