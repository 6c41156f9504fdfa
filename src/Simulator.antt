-- ===== src/Simulator.antt =====
-- include/NodeSimulator.h and src/NodeSimulator.cpp: the simulator that owns several nodes. An object
-- has a number, its address; the vector of the objects is the list of numbers and objects, and the
-- map by identifiers holds numbers. Waiting and output are left out.
pub mod Sound
pub mod Keeping
pub mod Calls
pub mod Removal
pub mod Stopping
mod Member
unfoldable pub use Member.*
use peer_to_peer_network_ove.Prelude.{
  ℕ, suc, ◌+◌, ◌==◌, ltb, if◌then◌else◌, Bool, true, false, Option, none, some, String, List, [],
  ◌∷◌, ◌++◌, length, Map, lookup, insert, erase, erase_if, keys, is_empty,
}
use peer_to_peer_network_ove.Common.{NodeId, NetworkAddress, TimePoint}
use peer_to_peer_network_ove.Outcome.{
  Outcome, Action, ok, fault, ret, dangling_pointer, ◌>>=◌, ◌>>◌,
}
use peer_to_peer_network_ove.Network.{Poco}
use peer_to_peer_network_ove.Manager.{maintain_network_integrity}
use peer_to_peer_network_ove.Overlay.{in_manager}
use peer_to_peer_network_ove.Prelude.{◌%◌}
use peer_to_peer_network_ove.Prelude.{◌^◌}

pub record NetworkSimulator : Type 0 where
  pub nodes : Map SimulatedNode
  pub node_map : Map ℕ
  pub running : Bool
  -- the number of the next object
  pub next : ℕ

-- The constructor.
abbrev pub new_simulator : NetworkSimulator
new_simulator = record { nodes = []; node_map = []; running = false; next = 0 }

-- The object with a number is replaced.
unfoldable pub put : ℕ → SimulatedNode → Map SimulatedNode → Map SimulatedNode
put h s [] = []
put h s ((i, n) ∷ nodes) = if i == h then (i, s) ∷ nodes else (i, n) ∷ put h s nodes

-- A call on the object with a number.
unfoldable pub at_node : {A : Type 0} → ℕ → Action SimulatedNode A → Action NetworkSimulator A
unfolding put
at_node h m sim = elim (lookup h sim.nodes) [
  | none ↦ fault dangling_pointer
  | some n ↦ elim (m n) [
    | fault e ↦ fault e
    | ok (a, s) ↦ ok (a, record sim { nodes = put h s sim.nodes })
  ]
]

unfoldable pub get_node : NodeId → NetworkSimulator → Option ℕ
get_node id sim = lookup id sim.node_map

abbrev pub get_node_count : NetworkSimulator → ℕ
get_node_count sim = length sim.nodes

-- The loop of getAllNodeIDs.
pub ids_of : Map SimulatedNode → List NodeId
ids_of [] = []
ids_of ((h, n) ∷ nodes) = n.node_id ∷ ids_of nodes

-- The number of the last object of the vector.
unfoldable pub last_handle : Map SimulatedNode → Option ℕ
last_handle [] = none
last_handle ((h, n) ∷ []) = some h
last_handle ((h, n) ∷ next ∷ nodes) = last_handle (next ∷ nodes)

-- createNode, for the identifier that generateNodeID draws; the result is the new object. Its number is
-- the largest, so it is inserted at the end.
unfoldable pub create_node : Option String → NodeId → ℕ → TimePoint → Action NetworkSimulator ℕ
create_node hostname id port now sim = elim (new_simulated_node hostname id port now) [
  | fault e ↦ fault e
  | ok n ↦ ok (
    sim.next,
    record sim {
      nodes = insert sim.next n sim.nodes;
      node_map = insert id sim.next sim.node_map;
      next = suc sim.next;
    },
  )
]

-- The erasure from the map and from the vector in removeNode. The destructor of an erased object
-- calls stop, whose effect ends with the object.
unfoldable pub drop_node : NodeId → NetworkSimulator → NetworkSimulator
drop_node id sim = record sim {
  node_map = erase id sim.node_map;
  nodes = erase_if (λ _ n. n.node_id == id) sim.nodes;
}

-- The sockets of each object.
module _ (env : ℕ → Poco) (now : TimePoint) where
  unfoldable pub remove_node : NodeId → Action NetworkSimulator Bool
  unfolding at_node drop_node
  remove_node id sim = elim (lookup id sim.node_map) [
    | none ↦ ok (false, sim)
    | some h ↦
        (do
          at_node h (stop (env h) now)
          at_node h (leave_network (env h) now)
          λ s. ok (true, drop_node id s))
          sim
  ]

  -- The loop of startAllNodes over the nodes after the first one.
  unfoldable pub start_loop : NetworkAddress → List ℕ → Action NetworkSimulator (Unit {0})
  unfolding at_node
  start_loop bootstrap [] = ret tt
  start_loop bootstrap (h ∷ hs) =
      let rest = start_loop bootstrap hs in
      do
        started ← at_node h (start (env h))
        joined ← at_node h (join_network (env h) bootstrap now)
        rest

  -- nodes_[0]->getAddress(), for the objects.
  abbrev pub first_address : List (ℕ × SimulatedNode) → NetworkAddress
  first_address [] = record { host = ""; port = 0 }
  first_address ((h, n) ∷ nodes) = n.address

  unfoldable pub start_from : List ℕ → Action NetworkSimulator (Unit {0})
  unfolding at_node start_loop
  start_from [] = ret tt
  start_from (h ∷ hs) = do
    started ← at_node h (start (env h))
    λ s. start_loop (first_address s.nodes) hs s
    λ s. ok (tt, record s { running = true })

  unfoldable pub start_all_nodes : Action NetworkSimulator (Unit {0})
  unfolding start_from
  start_all_nodes sim = start_from (keys sim.nodes) sim

  unfoldable pub stop_loop : List ℕ → Action NetworkSimulator (Unit {0})
  unfolding at_node
  stop_loop [] = ret tt
  stop_loop (h ∷ hs) = let rest = stop_loop hs in do at_node h (stop (env h) now); rest

  unfoldable pub stop_all_nodes : Action NetworkSimulator (Unit {0})
  unfolding stop_loop
  stop_all_nodes sim = stop_loop (keys sim.nodes) (record sim { running = false })

  -- createNode's port is cast to 16 bits.
  unfoldable pub test_dynamic_node_addition :
      Option String → NodeId → Action NetworkSimulator (Unit {0})
  unfolding create_node at_node
  test_dynamic_node_addition hostname id sim =
      if is_empty sim.nodes
      then ok (tt, sim)
      else (do
        h ← create_node hostname id ((8890 + length sim.nodes) % 2 ^ 16) now
        started ← at_node h (start (env h))
        λ s. (do joined ← at_node h (join_network (env h) (first_address s.nodes) now); ret tt) s)
          sim

  -- The identifier of the object, for the last object of the vector.
  abbrev pub id_at : ℕ → NetworkSimulator → NodeId
  id_at h sim = elim (lookup h sim.nodes) [ none ↦ 0 | some n ↦ n.node_id ]

  unfoldable pub test_node_removal : Action NetworkSimulator (Unit {0})
  unfolding last_handle remove_node
  test_node_removal sim =
      if ltb (length sim.nodes) 2 then ok (tt, sim) else elim (last_handle sim.nodes) [
        | none ↦ ok (tt, sim)
        | some h ↦ (do removed ← remove_node (id_at h sim); ret tt) sim
      ]

  unfoldable pub test_node_failure : Action NetworkSimulator (Unit {0})
  unfolding last_handle at_node
  test_node_failure sim =
      if ltb (length sim.nodes) 2 then ok (tt, sim) else elim (last_handle sim.nodes) [
        | none ↦ ok (tt, sim)
        | some h ↦ at_node h (stop (env h) now) sim
      ]

  -- maintainNetworkIntegrity, if the node runs.
  pub maintain_running : ℕ → Action SimulatedNode (Unit {0})
  maintain_running h s =
      if s.running
      then (do done ← in_overlay (in_manager (maintain_network_integrity (env h) now)); ret tt) s
      else ok (tt, s)

  unfoldable pub integrity_loop : List ℕ → Action NetworkSimulator (Unit {0})
  unfolding at_node maintain_running
  integrity_loop [] = ret tt
  integrity_loop (h ∷ hs) = let rest = integrity_loop hs in do at_node h (maintain_running h); rest

  unfoldable pub test_network_integrity : Action NetworkSimulator (Unit {0})
  unfolding integrity_loop
  test_network_integrity sim = integrity_loop (keys sim.nodes) sim
