-- ===== src/Node.antt =====
-- include/Node.h and src/Node.cpp: the local node and its peers. No method of Node takes a mutex
-- that its caller holds, so each call is atomic and the mutexes are not in the state.
pub mod Invariant
pub mod Table
use peer_to_peer_network_ove.Prelude.{
  ℕ, zero, suc, ◌==◌, leb, if◌then◌else◌, Bool, true, false, List, [], ◌∷◌, ◌++◌, length, mem,
}
use peer_to_peer_network_ove.Prelude.Int.{ℤ, ltb_ℤ}
use peer_to_peer_network_ove.Common.{NodeId, NetworkAddress, TimePoint, max_peers, elapsed_seconds}

pub record Node : Type 0 where
  pub node_id : NodeId
  pub address : NetworkAddress
  pub is_active : Bool
  pub peer_ids : List NodeId
  pub peer_addresses : List NetworkAddress
  pub last_seen : TimePoint
  pub topology_neighbors : List NodeId

-- The constructor; `now` is the clock's reading.
abbrev pub new_node : NodeId → NetworkAddress → TimePoint → Node
new_node id address now = record {
  node_id = id;
  address = address;
  is_active = true;
  peer_ids = [];
  peer_addresses = [];
  last_seen = now;
  topology_neighbors = [];
}

unfoldable pub has_peer : Node → NodeId → Bool
has_peer n peer = mem peer n.peer_ids

unfoldable pub get_peer_count : Node → ℕ
get_peer_count n = length n.peer_ids

unfoldable pub add_peer : Node → NodeId → NetworkAddress → Node × Bool
unfolding has_peer get_peer_count
add_peer n peer address =
    if has_peer n peer
    then (n, false)
    else if leb max_peers (get_peer_count n)
    then (n, false)
    else (
      record n {
        peer_ids = n.peer_ids ++ peer ∷ [];
        peer_addresses = n.peer_addresses ++ address ∷ [];
      },
      true,
    )

-- std::distance of the first match from the beginning; the length if there is none.
pub index_of : NodeId → List NodeId → ℕ
index_of k [] = 0
index_of k (x ∷ xs) = if x == k then 0 else suc (index_of k xs)

-- vector::erase at a position.
pub erase_at {ℓ} : {A : Type ℓ} → ℕ → List A → List A
erase_at i [] = []
erase_at zero (x ∷ xs) = xs
erase_at (suc i) (x ∷ xs) = x ∷ erase_at i xs

pub remove_peer : Node → NodeId → Node × Bool
unfolding has_peer index_of erase_at
remove_peer n peer =
    let index = index_of peer n.peer_ids in
    if has_peer n peer
    then (
      record n {
        peer_ids = erase_at index n.peer_ids;
        peer_addresses = erase_at index n.peer_addresses;
      },
      true,
    )
    else (n, false)

abbrev pub set_active : Node → Bool → Node
set_active n active = record n { is_active = active }

abbrev pub update_last_seen : Node → TimePoint → Node
update_last_seen n now = record n { last_seen = now }

unfoldable pub is_alive : Node → TimePoint → ℤ → Bool
is_alive n now timeout = ltb_ℤ (elapsed_seconds now n.last_seen) timeout

abbrev pub set_topology_info : Node → List NodeId → Node
set_topology_info n neighbors = record n { topology_neighbors = neighbors }
