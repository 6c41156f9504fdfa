-- ===== src/Tests/WireTests.antt =====
-- The bytes of src/NetworkManager.cpp and src/MessageHandler.cpp on small messages and lists.
use peer_to_peer_network_ove.Prelude.{◌≡◌, true, [], ◌∷◌, ◌++◌, arith}
use peer_to_peer_network_ove.Common.{Message}
use peer_to_peer_network_ove.Wire.{
  serialize_message, deserialize_message, serialize_node_list, deserialize_node_list,
}
use peer_to_peer_network_ove.Wire.MessageRoundtrip.{Fits, deserialize-serialize}
use peer_to_peer_network_ove.Wire.ListRoundtrip.{deserialize-serialize_node_list, deserialize-flag}

-- A heartbeat, which has no payload, and a message with two bytes.
abbrev pub beat : Message
beat = record { type = 4; sender_id = 1; receiver_id = 2; payload = []; timestamp = 77 }

abbrev pub two_bytes : Message
two_bytes = record {
  type = 5;
  sender_id = 1;
  receiver_id = 2;
  payload = 10 ∷ 20 ∷ [];
  timestamp = 300;
}

beat-Fits : Fits beat
beat-Fits = record {
  type = omega arith;
  sender = omega arith;
  receiver = omega arith;
  time = omega arith;
  size = omega arith;
}

pub two_bytes-Fits : Fits two_bytes
two_bytes-Fits = record {
  type = omega arith;
  sender = omega arith;
  receiver = omega arith;
  time = omega arith;
  size = omega arith;
}

-- The heartbeat is read into an object that held two bytes, and keeps them.
deserialize-serialize_example :
    deserialize_message (serialize_message beat) two_bytes
    ≡ (record beat { payload = 10 ∷ 20 ∷ [] }, true)
deserialize-serialize_example = deserialize-serialize beat two_bytes beat-Fits

deserialize-serialize_node_list_example :
    deserialize_node_list (serialize_node_list (3 ∷ 7 ∷ []) ++ 9 ∷ []) ≡ 3 ∷ 7 ∷ []
deserialize-serialize_node_list_example =
    deserialize-serialize_node_list (3 ∷ 7 ∷ []) (9 ∷ []) (omega arith, (omega arith, tt))
      (omega arith)

deserialize-flag_run : deserialize_node_list (1 ∷ serialize_node_list (3 ∷ 7 ∷ [])) ≡ []
deserialize-flag_run = deserialize-flag 1 (3 ∷ 7 ∷ []) (omega arith) (omega arith)
