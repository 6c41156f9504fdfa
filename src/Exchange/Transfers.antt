-- ===== src/Exchange/Transfers.antt =====
-- The records of transfers (src/DataExchange.cpp): their progress and their end, queries and the
-- removal of old records.
use peer_to_peer_network_ove.Prelude.{
  ℕ, ◌+◌, if◌then◌else◌, Bool, true, false, ◌&&◌, some, none, List, [], ◌∷◌, ◌++◌, Map, lookup,
  insert, erase_if,
}
use peer_to_peer_network_ove.Prelude.Int.{ℤ, ltb_ℤ}
use peer_to_peer_network_ove.Common.{TimePoint, elapsed_seconds}
use peer_to_peer_network_ove.Exchange.State.{
  TransferStatus, in_progress, completed, failed, cancelled, DataTransfer, no_transfer,
  transfer_complete, transfer_progress, Exchange, notify,
}

abbrev pub end_transfer : Bool → TimePoint → DataTransfer → DataTransfer
end_transfer success now t = record t {
  status = if success then completed else failed;
  last_update = now;
}

-- The part of markTransferComplete that is about the outgoing transfers.
unfoldable pub mark_outgoing : ℕ → Bool → TimePoint → Exchange → Exchange
mark_outgoing id success now e = elim (lookup id e.outgoing_transfers) [
  | none ↦ e
  | some t ↦ notify e.on_transfer_complete (transfer_complete id success) (record e {
    outgoing_transfers = insert id (end_transfer success now t) e.outgoing_transfers;
    completed_transfers = if success then e.completed_transfers + 1 else e.completed_transfers;
    failed_transfers = if success then e.failed_transfers else e.failed_transfers + 1;
  })
]

-- The part of markTransferComplete that is about the incoming transfers.
unfoldable pub mark_incoming : ℕ → Bool → TimePoint → Exchange → Exchange
mark_incoming id success now e = elim (lookup id e.incoming_transfers) [
  | none ↦ e
  | some t ↦ record e {
    incoming_transfers = insert id (end_transfer success now t) e.incoming_transfers;
  }
]

unfoldable pub mark_transfer_complete : ℕ → Bool → TimePoint → Exchange → Exchange
unfolding mark_outgoing mark_incoming
mark_transfer_complete id success now e =
    mark_incoming id success now (mark_outgoing id success now e)

unfoldable pub update_transfer_progress : ℕ → ℕ → TimePoint → Exchange → Exchange
update_transfer_progress id n now e = elim (lookup id e.outgoing_transfers) [
  | none ↦ e
  | some t ↦
      let t' : DataTransfer = record t {
        transferred_size = t.transferred_size + n;
        last_update = now;
      } in
      notify e.on_transfer_progress (transfer_progress id t'.transferred_size t'.total_size)
        (record e { outgoing_transfers = insert id t' e.outgoing_transfers })
]

unfoldable pub cancel_transfer : ℕ → Exchange → Bool × Exchange
cancel_transfer id e = elim (lookup id e.outgoing_transfers) [
  | none ↦ (false, e)
  | some t ↦ (
    true,
    record e {
      outgoing_transfers = insert id (record t { status = cancelled }) e.outgoing_transfers;
    },
  )
]

unfoldable pub get_received_data : ℕ → Exchange → List ℕ
get_received_data id e = elim (lookup id e.completed_data) [ none ↦ [] | some bytes ↦ bytes ]

abbrev pub is_completed : TransferStatus → Bool
is_completed completed = true
is_completed _ = false

unfoldable pub is_transfer_complete : ℕ → Exchange → Bool
is_transfer_complete id e = elim (lookup id e.incoming_transfers) [
  | none ↦ false
  | some t ↦ is_completed t.status
]

abbrev pub is_active : TransferStatus → Bool
is_active in_progress = true
is_active _ = false

-- The transfers of one map that getActiveTransfers copies.
pub active_in : Map DataTransfer → List DataTransfer
active_in [] = []
active_in ((id, t) ∷ rest) = if is_active t.status then t ∷ active_in rest else active_in rest

unfoldable pub get_active_transfers : Exchange → List DataTransfer
unfolding active_in
get_active_transfers e = active_in e.outgoing_transfers ++ active_in e.incoming_transfers

unfoldable pub get_transfer_info : ℕ → Exchange → DataTransfer
get_transfer_info id e = elim (lookup id e.outgoing_transfers) [
  | some t ↦ t
  | none ↦ elim (lookup id e.incoming_transfers) [ some t ↦ t | none ↦ no_transfer ]
]

-- A transfer that has ended; an incoming one is never cancelled.
abbrev pub has_ended : TransferStatus → Bool
has_ended completed = true
has_ended failed = true
has_ended _ = false

abbrev pub has_ended_or_cancelled : TransferStatus → Bool
has_ended_or_cancelled cancelled = true
has_ended_or_cancelled s = has_ended s

unfoldable pub cleanup_completed_transfers : ℤ → TimePoint → Exchange → Exchange
cleanup_completed_transfers timeout now e =
    let is_old = λ (t : DataTransfer). ltb_ℤ timeout (elapsed_seconds now t.last_update) in
    record e {
      outgoing_transfers =
          erase_if (λ _ t. has_ended_or_cancelled t.status && is_old t) e.outgoing_transfers;
      incoming_transfers = erase_if (λ _ t. has_ended t.status && is_old t) e.incoming_transfers;
    }
