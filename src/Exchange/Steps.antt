-- ===== src/Exchange/Steps.antt =====
-- The steps of handleDataChunk (src/DataExchange.cpp): what each leaves as it is.
use peer_to_peer_network_ove.Prelude.{
  ℕ, ◌≡◌, ◌∙◌, refl, ap, inl, inr, Bool, true, some, List, lookup, contains, is_some, lookup-insert,
  ==_refl, arith, Option-cases,
}
use peer_to_peer_network_ove.Common.{NodeId, TimePoint}
use peer_to_peer_network_ove.Exchange.State.{DataChunk, Exchange}
use peer_to_peer_network_ove.Exchange.{
  deliver, reassemble_data, store_chunk, count_chunk, report_progress, handle_data_chunk,
  mark_outgoing, mark_incoming, mark_transfer_complete, end_transfer, is_transfer_complete,
}

-- What the steps after the storing of a chunk leave as it is.
pub mark_transfer_complete-keeps :
    (id : ℕ) (success : Bool) (now : TimePoint) (e : Exchange)
    → ((mark_transfer_complete id success now e).received_chunks ≡ e.received_chunks)
      × ((mark_transfer_complete id success now e).completed_data ≡ e.completed_data)
unfolding mark_transfer_complete
mark_transfer_complete-keeps id success now e = (ground arith, ground arith)

pub report_progress-keeps :
    (id : ℕ) (e : Exchange)
    → ((report_progress id e).received_chunks ≡ e.received_chunks)
      × ((report_progress id e).completed_data ≡ e.completed_data)
      × ((report_progress id e).incoming_transfers ≡ e.incoming_transfers)
unfolding report_progress
report_progress-keeps id e = (ground arith, ground arith, ground arith)

pub reassemble_data-keeps :
    (id : ℕ) (e : Exchange) → (reassemble_data id e).1.received_chunks ≡ e.received_chunks
unfolding reassemble_data
reassemble_data-keeps id e = ground arith

pub handle_data_chunk-chunks :
    (c : DataChunk) (source : NodeId) (now : TimePoint) (e : Exchange)
    → (handle_data_chunk c source now e).received_chunks ≡ (store_chunk c e).received_chunks
unfolding handle_data_chunk
handle_data_chunk-chunks c source now e =
    let s = count_chunk c source now (store_chunk c e) in
    let whole = (reassemble_data c.chunk_id s).0 in
    let s' = (reassemble_data c.chunk_id s).1 in
    ground (
      arith,
      reassemble_data-keeps c.chunk_id s,
      mark_transfer_complete-keeps c.chunk_id true now s',
      report_progress-keeps c.chunk_id s',
      report_progress-keeps c.chunk_id (mark_transfer_complete c.chunk_id true now s'),
    )

pub deliver_lem :
    (id : ℕ) (bytes : List ℕ) (e : Exchange)
    → (lookup id (deliver id bytes e).completed_data ≡ some bytes)
      × ((deliver id bytes e).incoming_transfers ≡ e.incoming_transfers)
unfolding deliver
deliver_lem id bytes e = (lookup-insert id id bytes e.completed_data ∙ rw (==_refl id), refl)

pub mark_outgoing-incoming :
    (id : ℕ) (success : Bool) (now : TimePoint) (e : Exchange)
    → (mark_outgoing id success now e).incoming_transfers ≡ e.incoming_transfers
unfolding mark_outgoing
mark_outgoing-incoming id success now e = ground arith

pub mark_incoming_complete :
    (id : ℕ) (now : TimePoint) (e : Exchange)
    → contains id e.incoming_transfers ≡ true
    → is_transfer_complete id (mark_incoming id true now e) ≡ true
unfolding mark_incoming is_transfer_complete
mark_incoming_complete id now e h = elim (Option-cases (lookup id e.incoming_transfers)) [
  | inl absent ↦ ground arith
  | inr (t, found) ↦
      ground (arith, lookup-insert id id (end_transfer true now t) e.incoming_transfers, ==_refl id)
]

pub mark_transfer_complete_complete :
    (id : ℕ) (now : TimePoint) (e : Exchange)
    → contains id e.incoming_transfers ≡ true
    → is_transfer_complete id (mark_transfer_complete id true now e) ≡ true
unfolding mark_transfer_complete
mark_transfer_complete_complete id now e h =
    mark_incoming_complete id now (mark_outgoing id true now e)
      (ap (contains id) (mark_outgoing-incoming id true now e) ∙ h)

pub count_chunk-incoming :
    (c : DataChunk) (source : NodeId) (now : TimePoint) (e : Exchange)
    → contains c.chunk_id (count_chunk c source now e).incoming_transfers ≡ true
unfolding count_chunk
count_chunk-incoming c source now e =
    ap is_some (lookup-insert c.chunk_id c.chunk_id _ e.incoming_transfers)
    ∙ rw (==_refl c.chunk_id)
