-- ===== src/Tests/NodeTests.antt =====
-- src/Node.cpp on a node with two peers.
use peer_to_peer_network_ove.Prelude.{
  ◌==◌, if◌then◌else◌, [], ◌∷◌, true, none, some, ◌≡◌, refl, arith, ℕ,
}
use peer_to_peer_network_ove.Common.{NetworkAddress}
use peer_to_peer_network_ove.Node.{Node, add_peer, remove_peer, has_peer}
use peer_to_peer_network_ove.Node.Invariant.{
  IsWellFormed, add_peer-IsWellFormed, remove_peer-IsWellFormed,
}
use peer_to_peer_network_ove.Node.Table.{
  table, add_peer-table, remove_peer-table, remove_peer-add_peer,
}

abbrev pub here_address : NetworkAddress
here_address = record { host = "h"; port = 8888 }

abbrev pub there_address : NetworkAddress
there_address = record { host = "t"; port = 8889 }

abbrev pub two_peers : Node
two_peers = record {
  node_id = 1;
  address = here_address;
  is_active = true;
  peer_ids = 7 ∷ 5 ∷ [];
  peer_addresses = there_address ∷ here_address ∷ [];
  last_seen = 0;
  topology_neighbors = [];
}

pub two_peers-IsWellFormed : IsWellFormed two_peers
two_peers-IsWellFormed = record {
  parallel = refl;
  distinct = (refl, (refl, tt));
  bounded = omega arith;
}

add_peer-IsWellFormed_run : IsWellFormed (add_peer two_peers 9 there_address).0
add_peer-IsWellFormed_run = add_peer-IsWellFormed two_peers 9 there_address two_peers-IsWellFormed

remove_peer-IsWellFormed_run : IsWellFormed (remove_peer two_peers 7).0
remove_peer-IsWellFormed_run = remove_peer-IsWellFormed two_peers 7 two_peers-IsWellFormed

add_peer-table_example :
    ((add_peer two_peers 9 there_address).1 ≡ true)
    × ((j : ℕ)
        → table (add_peer two_peers 9 there_address).0 j
          ≡ (if 9 == j then some there_address else table two_peers j))
unfolding add_peer
add_peer-table_example = add_peer-table two_peers 9 there_address two_peers-IsWellFormed

remove_peer-table_example :
    ((remove_peer two_peers 7).1 ≡ true)
    × ((j : ℕ) → table (remove_peer two_peers 7).0 j ≡ (if 7 == j then none else table two_peers j))
unfolding has_peer
remove_peer-table_example = remove_peer-table two_peers 7 two_peers-IsWellFormed

remove_peer-add_peer_run :
    table (remove_peer (add_peer two_peers 9 there_address).0 9).0 5 ≡ some here_address
unfolding add_peer
remove_peer-add_peer_run =
    remove_peer-add_peer two_peers 9 there_address 5 two_peers-IsWellFormed refl
