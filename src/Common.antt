-- ===== src/Common.antt =====
-- include/Common.h: identifiers, addresses, messages and the configuration constants; and the
-- system clock, whose readings are arguments of the operations that take them.
use text.Mathlib.Text.{◌==◌ as str_eq}
use peer_to_peer_network_ove.Prelude.{
  ℕ, ◌-◌, ◌/◌, ◌==◌, leb, if◌then◌else◌, Bool, ◌&&◌, String, List,
}
use peer_to_peer_network_ove.Prelude.Int.{ℤ, pos, sub_ℕ}

-- A NodeID is a uint64_t and a Port a uint16_t; both are numbers here.
abbrev pub NodeId : Type 0
NodeId = ℕ

abbrev pub heartbeat_interval_sec : ℤ
heartbeat_interval_sec = pos 30

abbrev pub node_timeout_sec : ℤ
node_timeout_sec = pos 90

abbrev pub max_peers : ℕ
max_peers = 10

pub record NetworkAddress : Type 0 where
  pub host : String
  pub port : ℕ

-- The default constructor.
abbrev pub no_address : NetworkAddress
no_address = record { host = ""; port = 0 }

abbrev pub address_eq : NetworkAddress → NetworkAddress → Bool
address_eq a b = str_eq a.host b.host && a.port == b.port

-- enum class MessageType : uint8_t. A byte that comes off the wire may be no enumerator.
abbrev pub MessageType : Type 0
MessageType = ℕ

abbrev pub join_request : MessageType
join_request = 1

abbrev pub join_response : MessageType
join_response = 2

abbrev pub leave_notification : MessageType
leave_notification = 3

abbrev pub heartbeat : MessageType
heartbeat = 4

abbrev pub data_message : MessageType
data_message = 5

abbrev pub topology_update : MessageType
topology_update = 6

abbrev pub peer_discovery : MessageType
peer_discovery = 7

abbrev pub route_message : MessageType
route_message = 8

abbrev pub message_ack : MessageType
message_ack = 9

abbrev pub data_chunk : MessageType
data_chunk = 10

abbrev pub transfer_request : MessageType
transfer_request = 11

abbrev pub transfer_response : MessageType
transfer_response = 12

pub record Message : Type 0 where
  pub type : MessageType
  pub sender_id : NodeId
  pub receiver_id : NodeId
  pub payload : List ℕ
  pub timestamp : ℕ

-- A reading of system_clock, in nanoseconds.
abbrev pub TimePoint : Type 0
TimePoint = ℕ

abbrev pub nanoseconds : ℕ
nanoseconds = 1000000000

-- duration_cast<seconds>(now - then): signed, rounded towards zero.
unfoldable pub elapsed_seconds : TimePoint → TimePoint → ℤ
elapsed_seconds now before =
    if leb before now
    then pos ((now - before) / nanoseconds)
    else sub_ℕ 0 ((before - now) / nanoseconds)
