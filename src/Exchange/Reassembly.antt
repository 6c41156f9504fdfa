-- ===== src/Exchange/Reassembly.antt =====
-- handleDataChunk and reassembleData (src/DataExchange.cpp) on the chunks that splitData makes.
use peer_to_peer_network_ove.Prelude.{
  ℕ, ◌<◌, ◌≡◌, if◌then◌else◌, true, ◌||◌, some, none, List, [], ◌∷◌, length, mem, lookup,
}
use peer_to_peer_network_ove.Common.{NodeId, TimePoint}
use peer_to_peer_network_ove.Exchange.State.{DataChunk, Exchange}
use peer_to_peer_network_ove.Exchange.{
  chunk_count, chunk_at, chunks_of, store_chunk, count_chunk, handle_data_chunk, get_received_data,
  is_transfer_complete,
}
use peer_to_peer_network_ove.Exchange.Splitting.{Splits}

module _ (bytes : List ℕ) (size id : ℕ) (s : Splits bytes size) where
  abbrev pub total : ℕ
  total = chunk_count (length bytes) size

  abbrev pub chunk : ℕ → DataChunk
  chunk i = chunk_at bytes id size total i

  -- The stored chunks of the transfer are those with the numbers `seen`.
  abbrev pub Holds : List ℕ → Exchange → Type 0
  Holds seen e = (k : ℕ) → lookup k (chunks_of id e) ≡ (if mem k seen then some (chunk k) else none)

  -- Every number of a chunk is in one of the two lists.
  abbrev pub Covers : List ℕ → List ℕ → Type 0
  Covers more seen = (k : ℕ) → k < total → (mem k more || mem k seen) ≡ true

  -- The whole data was received.
  abbrev pub Received : Exchange → Type 0
  Received e = (get_received_data id e ≡ bytes) × (is_transfer_complete id e ≡ true)

  module _ (source : NodeId) (now : TimePoint) where
    -- The state in which handleDataChunk tries to reassemble the data.
    abbrev stored : ℕ → Exchange → Exchange
    stored i e = count_chunk (chunk i) source now (store_chunk (chunk i) e)

  -- The numbers of the chunks that arrive, with their sources and the times.
  abbrev pub arrive : List (ℕ × NodeId × TimePoint) → Exchange → Exchange
  arrive [] e = e
  arrive ((i, source, now) ∷ more) e = arrive more (handle_data_chunk (chunk i) source now e)

  abbrev pub numbers : List (ℕ × NodeId × TimePoint) → List ℕ
  numbers [] = []
  numbers ((i, source, now) ∷ more) = i ∷ numbers more
