-- ===== src/Wire/ListRoundtrip.antt =====
-- serializeNodeList and deserializeNodeList (src/MessageHandler.cpp) against each other, and the
-- payload that createJoinResponse makes.
use native.Mathlib.Nat.{mod-eq_of_lt}
use peer_to_peer_network_ove.Prelude.{
  ℕ, zero, suc, ◌+◌, ◌*◌, ◌^◌, ◌<◌, ◌≡◌, refl, List, [], ◌∷◌, ◌++◌, length, length-append, take,
  All, arith,
}
use peer_to_peer_network_ove.Common.{NodeId}
use peer_to_peer_network_ove.Wire.{
  serialize_node_list, deserialize_node_list, node_bytes, read_nodes,
}
use peer_to_peer_network_ove.Wire.Bytes.{bytes_le, read_le, read_le-bytes_le}
use peer_to_peer_network_ove.Prelude.{take-length}

abbrev pub FitUint64 : List NodeId → Type 0
FitUint64 = All (λ k. k < 2 ^ 64)

length-node_bytes : (ks : List NodeId) → length (node_bytes ks) ≡ length ks * 8
unfolding node_bytes bytes_le
length-node_bytes [] = refl
length-node_bytes (k ∷ ks) = omega (arith, length-node_bytes ks)

read_nodes-node_bytes :
    (ks : List NodeId) (rest : List ℕ)
    → FitUint64 ks
    → read_nodes (length ks) (node_bytes ks ++ rest) ≡ ks
unfolding read_nodes node_bytes bytes_le
read_nodes-node_bytes [] rest h = refl
read_nodes-node_bytes (k ∷ ks) rest h =
    λ i. read_le-bytes_le 8 k h.0 i ∷ read_nodes-node_bytes ks rest h.1 i

serialize_node_list_lem :
    (ks : List NodeId)
    → length ks < 2 ^ 32
    → serialize_node_list ks ≡ bytes_le 4 (length ks) ++ node_bytes ks
unfolding serialize_node_list
serialize_node_list_lem ks h = simp (mod-eq_of_lt h, take-length ks)

-- A list of 64-bit identifiers, fewer than 2^32 of them, is read back from its bytes, also with
-- other bytes behind them.
pub deserialize-serialize_node_list :
    (ks : List NodeId) (rest : List ℕ)
    → FitUint64 ks
    → length ks < 2 ^ 32
    → deserialize_node_list (serialize_node_list ks ++ rest) ≡ ks
unfolding deserialize_node_list bytes_le
deserialize-serialize_node_list ks rest h short =
    rw (serialize_node_list_lem ks short, read_le-bytes_le 4 (length ks) short)
      (ground (
        arith,
        length-append (node_bytes ks) rest,
        length-node_bytes ks,
        read_nodes-node_bytes ks rest h,
      ))

read_le-flag : (flag n : ℕ) → n < 2 ^ 24 → read_le (take 4 (flag ∷ bytes_le 4 n)) ≡ flag + 256 * n
unfolding bytes_le read_le
read_le-flag flag n h = omega arith

deserialize-flag_nil :
    (flag : ℕ) → flag < 2 → deserialize_node_list (flag ∷ serialize_node_list []) ≡ []
unfolding deserialize_node_list serialize_node_list bytes_le read_nodes read_le node_bytes
deserialize-flag_nil zero f = refl
deserialize-flag_nil (suc flag) f = ground arith

deserialize-flag_cons :
    (flag : ℕ) (ks : List NodeId)
    → 0 < length ks
    → length ks < 2 ^ 24
    → deserialize_node_list (flag ∷ serialize_node_list ks) ≡ []
unfolding deserialize_node_list bytes_le
deserialize-flag_cons flag ks some_node short =
    rw (serialize_node_list_lem ks (omega arith), read_le-flag flag (length ks) short)
      (ground (arith, length-node_bytes ks))

-- With one byte in front the bytes of a list of fewer than 2^24 identifiers are read as the empty
-- list: the size that is read is too large for the data, or the list is empty.
pub deserialize-flag :
    (flag : ℕ) (ks : List NodeId)
    → flag < 2
    → length ks < 2 ^ 24
    → deserialize_node_list (flag ∷ serialize_node_list ks) ≡ []
deserialize-flag flag [] f short = deserialize-flag_nil flag f
deserialize-flag flag (k ∷ ks) f short = deserialize-flag_cons flag (k ∷ ks) (omega arith) short
