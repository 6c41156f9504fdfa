-- ===== src/Exchange/Sending.antt =====
-- sendData (src/DataExchange.cpp) over a network without connections, and cleanupCompletedTransfers.
use peer_to_peer_network_ove.Prelude.{
  ℕ, ◌+◌, ◌≡◌, ◌∙◌, refl, ap, inl, inr, if◌then◌else◌, Bool, false, ◌&&◌, Option, some, none,
  String, List, [], ◌∷◌, length, lookup, insert, lookup-insert, lookup-erase_if, Ascending, ==_refl,
  arith, List-cases,
}
use peer_to_peer_network_ove.Prelude.Int.{ℤ, ltb_ℤ}
use peer_to_peer_network_ove.Common.{NodeId, TimePoint, elapsed_seconds}
use peer_to_peer_network_ove.Outcome.{ok}
use peer_to_peer_network_ove.Network.{Poco}
use peer_to_peer_network_ove.Router.Table.{IsFree}
use peer_to_peer_network_ove.Router.Sending.{route_message-unconnected}
use peer_to_peer_network_ove.Exchange.State.{DataChunk, DataTransfer, Exchange}
use peer_to_peer_network_ove.Exchange.{
  new_outgoing, chunk_message, send_data, send_data_chunk, mark_transfer_complete, end_transfer,
  has_ended, has_ended_or_cancelled, cleanup_completed_transfers,
}
use peer_to_peer_network_ove.Exchange.Splitting.{Splits, split_data-joined}

-- Whether cleanupCompletedTransfers removes an outgoing transfer.
abbrev is_old : ℤ → TimePoint → DataTransfer → Bool
is_old timeout now t =
    has_ended_or_cancelled t.status && ltb_ℤ timeout (elapsed_seconds now t.last_update)

abbrev is_old_incoming : ℤ → TimePoint → DataTransfer → Bool
is_old_incoming timeout now t =
    has_ended t.status && ltb_ℤ timeout (elapsed_seconds now t.last_update)

abbrev keep_unless : (DataTransfer → Bool) → Option DataTransfer → Option DataTransfer
keep_unless p none = none
keep_unless p (some t) = if p t then none else some t

-- cleanupCompletedTransfers removes exactly the transfers that have ended and were last updated more
-- than the timeout ago; an incoming transfer that was cancelled would stay.
pub cleanup_completed_transfers-lookup :
    (timeout : ℤ) (now : TimePoint) (e : Exchange) (id : ℕ)
    → Ascending e.outgoing_transfers
    → Ascending e.incoming_transfers
    → (lookup id (cleanup_completed_transfers timeout now e).outgoing_transfers
        ≡ keep_unless (is_old timeout now) (lookup id e.outgoing_transfers))
      × (lookup id (cleanup_completed_transfers timeout now e).incoming_transfers
          ≡ keep_unless (is_old_incoming timeout now) (lookup id e.incoming_transfers))
unfolding cleanup_completed_transfers
cleanup_completed_transfers-lookup timeout now e id out inc =
    let out_lem = lookup-erase_if (λ _ t. is_old timeout now t) id e.outgoing_transfers out in
    let inc_lem =
      lookup-erase_if (λ _ t. is_old_incoming timeout now t) id e.incoming_transfers inc in
    (ground arith, ground arith)

module _ (env : Poco) (object_bytes : DataChunk → List ℕ) (now : TimePoint) where
  -- A state in which nothing can be sent: the topology's mutex is free and there is no connection.
  abbrev pub IsCutOff : Exchange → Type 0
  IsCutOff e = IsFree e.router × (e.router.world.network.active_connections ≡ [])

  send_data_chunk-unconnected :
      (target : NodeId) (c : DataChunk) (e : Exchange)
      → IsCutOff e
      → (s : Exchange) × (send_data_chunk env object_bytes now target c e ≡ ok (false, s))
        × (s.outgoing_transfers ≡ e.outgoing_transfers)
        × (s.failed_transfers ≡ e.failed_transfers)
  unfolding send_data_chunk
  send_data_chunk-unconnected target c e h =
      let m = chunk_message env object_bytes now target c e in
      let (r, ends, same) = route_message-unconnected env m now e.router h.0 h.1 in
      (
        record e { router = r; sent_data_size = e.sent_data_size + length c.bytes },
        ground (arith, ends),
        refl,
        refl,
      )

  mark_transfer_complete-failed :
      (id : ℕ) (t : DataTransfer) (e : Exchange)
      → lookup id e.outgoing_transfers ≡ some t
      → (lookup id (mark_transfer_complete id false now e).outgoing_transfers
          ≡ some (end_transfer false now t))
        × ((mark_transfer_complete id false now e).failed_transfers ≡ e.failed_transfers + 1)
  unfolding mark_transfer_complete
  mark_transfer_complete-failed id t e h =
      let entry = lookup-insert id id (end_transfer false now t) e.outgoing_transfers in
      let same = ==_refl id in (ground arith, ground arith)

  -- Over a network without connections, with the topology's mutex free, sendData returns 0 for data
  -- that are not empty, if the arithmetic of splitData does not wrap around: the transfer is
  -- recorded as failed, and one more failed transfer is counted.
  pub send_data-unconnected :
      (target : NodeId) (byte : ℕ) (bytes : List ℕ) (data_type : String) (id : ℕ) (e : Exchange)
      → IsCutOff e
      → Splits (byte ∷ bytes) e.chunk_size
      → (s : Exchange) × (send_data env object_bytes now target (byte ∷ bytes) data_type id e
          ≡ ok (0, s))
        × (lookup id s.outgoing_transfers
            ≡ some (
                end_transfer false now
                  (new_outgoing env object_bytes now target (byte ∷ bytes) data_type id e)))
        × (s.failed_transfers ≡ e.failed_transfers + 1)
  unfolding send_data
  send_data-unconnected target byte bytes data_type id e h fits =
      let t = new_outgoing env object_bytes now target (byte ∷ bytes) data_type id e in
      let begun = record e { outgoing_transfers = insert id t e.outgoing_transfers } in
      let (chunks, cut, whole, _) = split_data-joined (byte ∷ bytes) id begun fits in
      elim (List-cases chunks) [
        | inl empty ↦ ground arith
        | inr (c, rest, cons) ↦
            let (r, sent, same, count) = send_data_chunk-unconnected target c begun h in
            let found : lookup id r.outgoing_transfers ≡ some t =
              ap (lookup id) same ∙ lookup-insert id id t e.outgoing_transfers ∙ rw (==_refl id) in
            let (entry, counted) = mark_transfer_complete-failed id t r found in
            (
              mark_transfer_complete id false now r,
              ground arith,
              entry,
              counted ∙ ap (λ k. k + 1) count,
            )
      ]
