-- ===== src/Exchange/Receiving.antt =====
-- Chunks that arrive (src/DataExchange.cpp): handleDataChunk and reassembleData.
use peer_to_peer_network_ove.Prelude.{
  ℕ, zero, suc, ◌+◌, ◌==◌, ltb, if◌then◌else◌, Bool, true, false, not, ◌&&◌, ◌||◌, Option, some,
  none, List, [], ◌∷◌, ◌++◌, length, is_empty, Map, lookup, insert,
}
use peer_to_peer_network_ove.Common.{NodeId, TimePoint}
use peer_to_peer_network_ove.Router.{self_id}
use peer_to_peer_network_ove.Exchange.State.{
  DataChunk, in_progress, DataTransfer, no_transfer, data_received, transfer_progress, Exchange,
  notify,
}
use peer_to_peer_network_ove.Exchange.Transfers.{mark_transfer_complete}

-- The chunks that are stored under a transfer.
abbrev pub chunks_of : ℕ → Exchange → Map DataChunk
chunks_of id e = elim (lookup id e.received_chunks) [ none ↦ [] | some chunks ↦ chunks ]

-- The loop of reassembleData: the data of the chunks from `i` on, `n` of them, if none is missing.
unfoldable pub gather : Map DataChunk → ℕ → ℕ → Option (List ℕ)
gather chunks zero i = some []
gather chunks (suc n) i =
    let rest = gather chunks n (suc i) in
    elim (lookup i chunks) [
      | none ↦ none
      | some c ↦ elim rest [ none ↦ none | some bytes ↦ some (c.bytes ++ bytes) ]
    ]

-- What reassembleData does with the whole data.
unfoldable pub deliver : ℕ → List ℕ → Exchange → Exchange
deliver id bytes e =
    let t : DataTransfer = elim (lookup id e.incoming_transfers) [
      | none ↦ no_transfer
      | some t ↦ t
    ] in
    notify (e.on_data_received && not (t.source_id == 0))
      (data_received t.source_id bytes t.data_type)
      (record e { completed_data = insert id bytes e.completed_data })

-- `expectedChunks`, from the first chunk of the map.
abbrev pub expected_chunks : Map DataChunk → ℕ
expected_chunks [] = 0
expected_chunks ((i, c) ∷ chunks) = c.total_chunks

unfoldable pub reassemble_data : ℕ → Exchange → Bool × Exchange
unfolding gather deliver
reassemble_data id e =
    let chunks = chunks_of id e in
    let expected = expected_chunks chunks in
    if is_empty chunks || ltb (length chunks) expected
    then (false, e)
    else elim (gather chunks expected 0) [
      | none ↦ (false, e)
      | some bytes ↦ (true, deliver id bytes e)
    ]

unfoldable pub store_chunk : DataChunk → Exchange → Exchange
store_chunk chunk e = record e {
  received_chunks =
      insert chunk.chunk_id (insert chunk.sequence_number chunk (chunks_of chunk.chunk_id e))
        e.received_chunks;
}

-- The record of an incoming transfer, which its first chunk makes.
abbrev pub incoming : DataChunk → NodeId → TimePoint → Exchange → DataTransfer
incoming chunk source now e = elim (lookup chunk.chunk_id e.incoming_transfers) [
  | some t ↦ t
  | none ↦ record no_transfer {
    transfer_id = chunk.chunk_id;
    source_id = source;
    destination_id = self_id e.router;
    status = in_progress;
    start_time = now;
  }
]

unfoldable pub count_chunk : DataChunk → NodeId → TimePoint → Exchange → Exchange
count_chunk chunk source now e =
    let t = incoming chunk source now e in
    let size = t.transferred_size + length chunk.bytes in
    record e {
      incoming_transfers =
          insert chunk.chunk_id
            (record t {
              transferred_size = size;
              last_update = now;
              total_size = if chunk.is_last_chunk then size else t.total_size;
            })
            e.incoming_transfers;
      received_data_size = e.received_data_size + length chunk.bytes;
    }

-- The progress that handleDataChunk reports at its end.
unfoldable pub report_progress : ℕ → Exchange → Exchange
report_progress id e = elim (lookup id e.incoming_transfers) [
  | none ↦ e
  | some t ↦ notify e.on_transfer_progress (transfer_progress id t.transferred_size t.total_size) e
]

unfoldable pub handle_data_chunk : DataChunk → NodeId → TimePoint → Exchange → Exchange
unfolding store_chunk count_chunk report_progress reassemble_data mark_transfer_complete
handle_data_chunk chunk source now e =
    let id = chunk.chunk_id in
    let (whole, s) = reassemble_data id (count_chunk chunk source now (store_chunk chunk e)) in
    report_progress id (if whole then mark_transfer_complete id true now s else s)
