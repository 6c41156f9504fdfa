-- ===== src/Exchange.antt =====
-- include/DataExchange.h and src/DataExchange.cpp: transfers of data in chunks. Each of its two
-- mutexes is taken for a part of a call; readings of the clock within one call are taken as equal,
-- and the identifier that generateTransferID draws is an argument.
pub mod State
mod Transfers
mod Receiving
unfoldable pub use Transfers.*
unfoldable pub use Receiving.*
pub mod Splitting
pub mod Steps
pub mod Sending
pub mod Isolation
pub mod Reassembly
use peer_to_peer_network_ove.Prelude.{
  ℕ, zero, suc, ◌+◌, ◌-◌, ◌*◌, ◌/◌, ◌%◌, ◌^◌, ◌==◌, ltb, min, if◌then◌else◌, Bool, true, false, not,
  ◌&&◌, ◌||◌, Option, some, none, String, List, [], ◌∷◌, ◌++◌, length, is_empty, Map, lookup,
  contains, insert, erase_if,
}
use peer_to_peer_network_ove.Prelude.Int.{ℤ, ltb_ℤ}
use peer_to_peer_network_ove.Common.{NodeId, Message, data_chunk, TimePoint, elapsed_seconds}
use peer_to_peer_network_ove.Outcome.{
  Outcome, Action, ok, fault, ret, raise, division_by_zero, ◌>>=◌, ◌>>◌,
}
use peer_to_peer_network_ove.Wire.{slice, to_uint32}
use peer_to_peer_network_ove.Network.{Poco}
use peer_to_peer_network_ove.Router
use peer_to_peer_network_ove.Router.State.{shortest_path}
use peer_to_peer_network_ove.Router.{self_id}
use State.{
  DataChunk, TransferStatus, pending, in_progress, completed, failed, cancelled, DataTransfer,
  no_transfer, Notice, data_received, transfer_complete, transfer_progress, Exchange, notify,
  in_router,
}

-- A size_t.
abbrev pub size_max : ℕ
size_max = 2 ^ 64

-- `static_cast<uint32_t>((totalSize + chunkSize_ - 1) / chunkSize_)`, for a chunk size that is not 0.
abbrev pub chunk_count : ℕ → ℕ → ℕ
chunk_count total size = to_uint32 ((total + size + (size_max - 1)) % size_max / size)

-- The chunk of one round of the loop of splitData.
abbrev pub chunk_at : List ℕ → ℕ → ℕ → ℕ → ℕ → DataChunk
chunk_at bytes id size count i =
    let offset = i * size % size_max in
    record {
      chunk_id = id;
      sequence_number = i;
      total_chunks = count;
      bytes = slice offset (min size ((length bytes + size_max - offset) % size_max)) bytes;
      is_last_chunk = i == count - 1;
    }

-- The loop, with `n` rounds to go.
pub split_loop : List ℕ → ℕ → ℕ → ℕ → ℕ → ℕ → List DataChunk
split_loop bytes id size count zero i = []
split_loop bytes id size count (suc n) i =
    chunk_at bytes id size count i ∷ split_loop bytes id size count n (suc i)

pub split_data : List ℕ → ℕ → Action Exchange (List DataChunk)
unfolding split_loop
split_data bytes id e =
    let count = chunk_count (length bytes) e.chunk_size in
    if e.chunk_size == 0
    then fault division_by_zero
    else ok (split_loop bytes id e.chunk_size count count 0, e)

-- `object_bytes` are the bytes of a DataChunk object, its vector's pointers included, that
-- sendDataChunk copies into the message.
module _ (env : Poco) (object_bytes : DataChunk → List ℕ) (now : TimePoint) where
  pub chunk_message : NodeId → DataChunk → Exchange → Message
  chunk_message target chunk e = record {
    type = data_chunk;
    sender_id = self_id e.router;
    receiver_id = target;
    payload = object_bytes chunk ++ chunk.bytes;
    timestamp = now / 1000000;
  }

  pub send_data_chunk : NodeId → DataChunk → Action Exchange Bool
  unfolding chunk_message
  send_data_chunk target chunk e =
      in_router (Router.route_message env (chunk_message target chunk e) shortest_path now)
        (record e { sent_data_size = e.sent_data_size + length chunk.bytes })

  -- The loop of sendData; false once a chunk was not sent.
  pub send_chunks : NodeId → ℕ → List DataChunk → Action Exchange Bool
  send_chunks target id [] = ret true
  send_chunks target id (chunk ∷ chunks) =
      let rest = send_chunks target id chunks in
      do
        sent ← send_data_chunk target chunk
        λ e.
            if sent
            then rest (update_transfer_progress id (length chunk.bytes) now e)
            else ok (false, mark_transfer_complete id false now e)

  abbrev pub new_outgoing : NodeId → List ℕ → String → ℕ → Exchange → DataTransfer
  new_outgoing target bytes data_type id e = record {
    transfer_id = id;
    source_id = self_id e.router;
    destination_id = target;
    data_type = data_type;
    total_size = length bytes;
    transferred_size = 0;
    status = in_progress;
    start_time = now;
    last_update = now;
  }

  pub send_data : NodeId → List ℕ → String → ℕ → Action Exchange ℕ
  unfolding send_chunks
  send_data target bytes data_type id e =
      let transfer = new_outgoing target bytes data_type id e in
      (do
        chunks ← split_data bytes id
        sent ← send_chunks target id chunks
        λ s. if sent then ok (id, mark_transfer_complete id true now s) else ok (0, s))
        (record e { outgoing_transfers = insert id transfer e.outgoing_transfers })
