-- ===== src/Wire/MessageRoundtrip.antt =====
-- serializeMessage and deserializeMessage (src/NetworkManager.cpp) against each other.
use native.Mathlib.Nat.{mod-eq_of_lt}
use peer_to_peer_network_ove.Prelude.{
  ◌+◌, ◌^◌, ◌<◌, ◌≡◌, ◌∙◌, if◌then◌else◌, true, length, take-length, is_empty, arith,
}
use peer_to_peer_network_ove.Common.{Message}
use peer_to_peer_network_ove.Wire.{
  serialize_message, deserialize_message, read_header, read_payload_size, header_size, to_uint32,
  slice,
}
use peer_to_peer_network_ove.Wire.Bytes.{bytes_le, read_le-bytes_le}

-- The fields of a message fit their C++ types, and its payload a uint32_t size.
pub record Fits (m : Message) : Type 0 where
  pub type : m.type < 256
  pub sender : m.sender_id < 2 ^ 64
  pub receiver : m.receiver_id < 2 ^ 64
  pub time : m.timestamp < 2 ^ 64
  pub size : length m.payload < 2 ^ 32

read_header-serialize :
    (m old : Message)
    → Fits m
    → read_header (serialize_message m) old ≡ record m { payload = old.payload }
unfolding read_header serialize_message bytes_le
read_header-serialize m old f = λ i. record old {
  type = read_le-bytes_le 1 m.type f.type i;
  sender_id = read_le-bytes_le 8 m.sender_id f.sender i;
  receiver_id = read_le-bytes_le 8 m.receiver_id f.receiver i;
  timestamp = read_le-bytes_le 8 m.timestamp f.time i;
}

read_payload_size-serialize :
    (m : Message) → Fits m → read_payload_size (serialize_message m) ≡ length m.payload
unfolding read_payload_size serialize_message bytes_le
read_payload_size-serialize m f =
    read_le-bytes_le 4 (to_uint32 (length m.payload)) (omega arith) ∙ mod-eq_of_lt f.size

length-serialize : (m : Message) → length (serialize_message m) ≡ header_size + length m.payload
unfolding serialize_message bytes_le
length-serialize m = omega arith

payload-serialize :
    (m : Message) → slice header_size (length m.payload) (serialize_message m) ≡ m.payload
unfolding serialize_message bytes_le
payload-serialize m = take-length m.payload

-- A message whose fields fit their types is read back from its bytes, whatever the message object
-- that is filled; but if the payload is empty, the object keeps the payload that it had.
pub deserialize-serialize :
    (m old : Message)
    → Fits m
    → deserialize_message (serialize_message m) old
      ≡ (record m { payload = if is_empty m.payload then old.payload else m.payload }, true)
unfolding deserialize_message
deserialize-serialize m old f = ground (
  arith,
  length-serialize m,
  read_payload_size-serialize m f,
  read_header-serialize m old f,
  payload-serialize m,
)
