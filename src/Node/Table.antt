-- ===== src/Node/Table.antt =====
-- The peer vectors of src/Node.cpp seen as one table from identifiers to addresses.
use peer_to_peer_network_ove.Prelude.{
  ◌==◌, ltb, ◌≡◌, refl, true, false, not, ◌&&◌, if◌then◌else◌, List, [], ◌∷◌, ◌++◌, length, mem,
  arith, Option, some, none,
}
use peer_to_peer_network_ove.Common.{NodeId, NetworkAddress, max_peers}
use peer_to_peer_network_ove.Node.{
  Node, add_peer, remove_peer, has_peer, get_peer_count, index_of, erase_at,
}
use peer_to_peer_network_ove.Node.Invariant.{IsWellFormed, Distinct}
use peer_to_peer_network_ove.Node.Invariant.{add_peer-IsWellFormed}

-- What is stored for `k`: the address that stands where `k` stands first.
abbrev pub address_of : NodeId → List NodeId → List NetworkAddress → Option NetworkAddress
address_of k [] addresses = none
address_of k (x ∷ xs) [] = none
address_of k (x ∷ xs) (a ∷ addresses) = if x == k then some a else address_of k xs addresses

abbrev pub table : Node → NodeId → Option NetworkAddress
table n k = address_of k n.peer_ids n.peer_addresses

address_of-concat :
    (j k : NodeId) (a : NetworkAddress) (xs : List NodeId) (stored : List NetworkAddress)
    → length stored ≡ length xs
    → mem k xs ≡ false
    → address_of j (xs ++ k ∷ []) (stored ++ a ∷ [])
      ≡ (if k == j then some a else address_of j xs stored)
address_of-concat j k a [] [] h m = refl
address_of-concat j k a [] (b ∷ bs) h m = absurd (omega arith)
address_of-concat j k a (x ∷ xs) [] h m = absurd (omega arith)
address_of-concat j k a (x ∷ xs) (b ∷ bs) h m = ground (arith, address_of-concat j k a xs bs)

address_of-not-mem :
    (j : NodeId) (xs : List NodeId) (stored : List NetworkAddress)
    → mem j xs ≡ false
    → address_of j xs stored ≡ none
address_of-not-mem j [] bs m = refl
address_of-not-mem j (x ∷ xs) [] m = refl
address_of-not-mem j (x ∷ xs) (b ∷ bs) m = ground (arith, address_of-not-mem j xs bs)

address_of-erase_at :
    (j k : NodeId) (xs : List NodeId) (stored : List NetworkAddress)
    → length stored ≡ length xs
    → Distinct xs
    → address_of j (erase_at (index_of k xs) xs) (erase_at (index_of k xs) stored)
      ≡ (if k == j then none else address_of j xs stored)
unfolding index_of erase_at
address_of-erase_at j k [] [] h d = ground arith
address_of-erase_at j k [] (b ∷ bs) h d = absurd (omega arith)
address_of-erase_at j k (x ∷ xs) [] h d = absurd (omega arith)
address_of-erase_at j k (x ∷ xs) (b ∷ bs) h d =
    ground (arith, address_of-erase_at j k xs bs, address_of-not-mem j xs bs)

add_peer-fresh :
    (n : Node) (peer : NodeId) (address : NetworkAddress)
    → (add_peer n peer address).1 ≡ true
    → mem peer n.peer_ids ≡ false
unfolding add_peer
add_peer-fresh n peer address added = ground arith

module _ (n : Node) (peer : NodeId) where
  -- In a well-formed node, adding a peer succeeds exactly if the peer is new and fewer than ten are
  -- held. On success the table maps the peer to its address and all else as before; on failure the
  -- table is as before.
  pub add_peer-table :
      (address : NetworkAddress)
      → IsWellFormed n
      → ((add_peer n peer address).1 ≡ (not (has_peer n peer) && ltb (get_peer_count n) max_peers))
        × ((j : NodeId)
            → table (add_peer n peer address).0 j
              ≡ (if (add_peer n peer address).1 && peer == j then some address else table n j))
  unfolding add_peer
  add_peer-table address w = (
    ground arith,
    λ j. ground (arith, address_of-concat j peer address n.peer_ids n.peer_addresses),
  )

  -- In a well-formed node, removing a peer succeeds exactly if the peer is held. Afterwards the
  -- table has no entry for it, and every other peer keeps its address.
  pub remove_peer-table :
      IsWellFormed n
      → ((remove_peer n peer).1 ≡ has_peer n peer)
        × ((j : NodeId) → table (remove_peer n peer).0 j ≡ (if peer == j then none else table n j))
  unfolding remove_peer
  remove_peer-table w = (
    ground arith,
    λ j. ground (
      arith,
      address_of-erase_at j peer n.peer_ids n.peer_addresses,
      address_of-not-mem j n.peer_ids n.peer_addresses,
    ),
  )

-- A peer that was just added and is then removed leaves the table of a well-formed node as it was.
pub remove_peer-add_peer :
    (n : Node) (peer : NodeId) (address : NetworkAddress) (j : NodeId)
    → IsWellFormed n
    → (add_peer n peer address).1 ≡ true
    → table (remove_peer (add_peer n peer address).0 peer).0 j ≡ table n j
remove_peer-add_peer n peer address j w added = ground (
  arith,
  add_peer-fresh n peer address added,
  (add_peer-table n peer address w).1 j,
  (remove_peer-table (add_peer n peer address).0 peer (add_peer-IsWellFormed n peer address w)).1 j,
  address_of-not-mem j n.peer_ids n.peer_addresses,
)
