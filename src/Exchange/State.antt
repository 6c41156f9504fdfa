-- ===== src/Exchange/State.antt =====
-- The state of DataExchange (include/DataExchange.h). The counters are size_t; their wrap-around at
-- 2^64 is not modelled. A callback is an entry in a list of notifications, the latest last.
use peer_to_peer_network_ove.Prelude.{
  ℕ, Bool, false, ◌∷◌, ◌++◌, if◌then◌else◌, String, List, [], Map,
}
use peer_to_peer_network_ove.Common.{NodeId, TimePoint}
use peer_to_peer_network_ove.Outcome.{Action, ok, fault}
use peer_to_peer_network_ove.Router.State.{Router}

-- The field `data` of the source is `bytes` here.
pub record DataChunk : Type 0 where
  pub chunk_id : ℕ
  pub sequence_number : ℕ
  pub total_chunks : ℕ
  pub bytes : List ℕ
  pub is_last_chunk : Bool

pub data TransferStatus : Type 0 where
  pending in_progress completed failed cancelled : TransferStatus

pub record DataTransfer : Type 0 where
  pub transfer_id : ℕ
  pub source_id : NodeId
  pub destination_id : NodeId
  pub data_type : String
  pub total_size : ℕ
  pub transferred_size : ℕ
  pub status : TransferStatus
  pub start_time : TimePoint
  pub last_update : TimePoint

-- The default constructor; its time points are those of the epoch.
abbrev pub no_transfer : DataTransfer
no_transfer = record {
  transfer_id = 0;
  source_id = 0;
  destination_id = 0;
  data_type = "";
  total_size = 0;
  transferred_size = 0;
  status = pending;
  start_time = 0;
  last_update = 0;
}

-- The calls of the three callbacks.
pub data Notice : Type 0 where
  data_received : NodeId → List ℕ → String → Notice
  transfer_complete : ℕ → Bool → Notice
  transfer_progress : ℕ → ℕ → ℕ → Notice

pub record Exchange : Type 0 where
  pub router : Router
  pub outgoing_transfers : Map DataTransfer
  pub incoming_transfers : Map DataTransfer
  pub received_chunks : Map (Map DataChunk)
  pub completed_data : Map (List ℕ)
  pub chunk_size : ℕ
  pub max_concurrent_transfers : ℕ
  -- whether each callback is set
  pub on_data_received : Bool
  pub on_transfer_complete : Bool
  pub on_transfer_progress : Bool
  pub sent_data_size : ℕ
  pub received_data_size : ℕ
  pub completed_transfers : ℕ
  pub failed_transfers : ℕ
  pub notices : List Notice

-- The constructor.
abbrev pub new_exchange : Router → Exchange
new_exchange r = record {
  router = r;
  outgoing_transfers = [];
  incoming_transfers = [];
  received_chunks = [];
  completed_data = [];
  chunk_size = 4096;
  max_concurrent_transfers = 5;
  on_data_received = false;
  on_transfer_complete = false;
  on_transfer_progress = false;
  sent_data_size = 0;
  received_data_size = 0;
  completed_transfers = 0;
  failed_transfers = 0;
  notices = [];
}

-- A callback is called if it is set.
abbrev pub notify : Bool → Notice → Exchange → Exchange
notify set notice e = record e { notices = if set then e.notices ++ notice ∷ [] else e.notices }

abbrev pub in_router : {A : Type 0} → Action Router A → Action Exchange A
in_router m e = elim (m e.router) [
  | fault f ↦ fault f
  | ok (a, r) ↦ ok (a, record e { router = r })
]
