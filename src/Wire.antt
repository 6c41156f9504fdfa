-- ===== src/Wire.antt =====
-- Messages and node lists as bytes: serializeMessage and deserializeMessage of
-- src/NetworkManager.cpp, serializeNodeList and deserializeNodeList of src/MessageHandler.cpp.
-- memcpy copies the bytes of a number in the order of the host, here little-endian.
pub mod Bytes
pub mod MessageRoundtrip
pub mod ListRoundtrip
use peer_to_peer_network_ove.Prelude.{
  ℕ, zero, suc, ◌+◌, ◌*◌, ◌/◌, ◌%◌, ◌^◌, ltb, leb, if◌then◌else◌, Bool, true, false, ◌&&◌, List, [],
  ◌∷◌, ◌++◌, length, take, drop,
}
use peer_to_peer_network_ove.Common.{NodeId, Message}
use Bytes.{bytes_le, read_le}

-- A uint32_t from a size_t.
abbrev pub to_uint32 : ℕ → ℕ
to_uint32 n = n % 2 ^ 32

-- The header that both serializeMessage and sendMessageToPeer write: type, sender, receiver,
-- timestamp and payload size, 29 bytes.
abbrev pub header_bytes : Message → List ℕ
header_bytes m =
    bytes_le 1 m.type
    ++ (bytes_le 8 m.sender_id
        ++ (bytes_le 8 m.receiver_id
            ++ (bytes_le 8 m.timestamp ++ bytes_le 4 (to_uint32 (length m.payload)))))

pub serialize_message : Message → List ℕ
unfolding bytes_le
serialize_message m = header_bytes m ++ m.payload

-- The bytes from an offset on, `n` of them.
abbrev pub slice : ℕ → ℕ → List ℕ → List ℕ
slice offset n buffer = take n (drop offset buffer)

abbrev pub header_size : ℕ
header_size = 29

-- The reads of one header, as deserializeMessage and PeerConnectionHandler::run make them.
unfoldable pub read_header : List ℕ → Message → Message
unfolding read_le
read_header buffer old = record old {
  type = read_le (slice 0 1 buffer);
  sender_id = read_le (slice 1 8 buffer);
  receiver_id = read_le (slice 9 8 buffer);
  timestamp = read_le (slice 17 8 buffer);
}

unfoldable pub read_payload_size : List ℕ → ℕ
unfolding read_le
read_payload_size buffer = read_le (slice 25 4 buffer)

-- The message that the caller passes in is filled; its payload is kept if the buffer has none.
pub deserialize_message : List ℕ → Message → Message × Bool
unfolding read_header read_payload_size
deserialize_message buffer old =
    if ltb (length buffer) header_size
    then (old, false)
    else let m = read_header buffer old in
      let size = read_payload_size buffer in
      (
        (if ltb 0 size && leb (header_size + size) (length buffer)
            then record m { payload = slice header_size size buffer }
            else m),
        true,
      )

-- memcpy of `count * sizeof(NodeID)` bytes.
pub node_bytes : List NodeId → List ℕ
unfolding bytes_le
node_bytes [] = []
node_bytes (k ∷ ks) = bytes_le 8 k ++ node_bytes ks

pub serialize_node_list : List NodeId → List ℕ
unfolding bytes_le node_bytes
serialize_node_list nodes =
    let count = to_uint32 (length nodes) in bytes_le 4 count ++ node_bytes (take count nodes)

pub read_nodes : ℕ → List ℕ → List NodeId
unfolding read_le
read_nodes zero bytes = []
read_nodes (suc n) bytes = read_le (take 8 bytes) ∷ read_nodes n (drop 8 bytes)

pub deserialize_node_list : List ℕ → List NodeId
deserialize_node_list buffer =
    if ltb (length buffer) 4
    then []
    else let count = read_le (take 4 buffer) in
      if ltb (length buffer) (4 + count * 8) then [] else read_nodes count (drop 4 buffer)
