-- ===== src/Reliable.antt =====
-- include/ReliableMessaging.h and src/ReliableMessaging.cpp: messages that wait for an
-- acknowledgement. Counters do not wrap around; the identifier that generateMessageID draws is an
-- argument; a callback is an entry in a list of notices, the latest last; readings of the clock
-- within one call are taken as equal.
pub mod Retry
pub mod Bound
pub mod GivingUp
pub mod Isolation
pub mod Delivery
use peer_to_peer_network_ove.Prelude.{
  ℕ, zero, suc, ◌+◌, if◌then◌else◌, Bool, true, false, not, ◌&&◌, Option, some, none, List, [], ◌∷◌,
  ◌++◌, Map, lookup, contains, insert, erase, erase_if,
}
use peer_to_peer_network_ove.Prelude.Int.{ℤ, pos, ltb_ℤ}
use peer_to_peer_network_ove.Common.{NodeId, Message, TimePoint, elapsed_seconds}
use peer_to_peer_network_ove.Network.{Poco, Network, send_message_to_peer}

pub data AckStatus : Type 0 where
  pending acknowledged timeout failed : AckStatus

pub record ReliableMessage : Type 0 where
  pub message_id : ℕ
  pub message : Message
  pub destination_id : NodeId
  pub ack_status : AckStatus
  pub retry_count : ℕ
  pub send_time : TimePoint
  pub last_retry : TimePoint

-- The calls of the two callbacks.
pub data DeliveryNotice : Type 0 where
  message_delivered : ℕ → NodeId → DeliveryNotice
  message_failed : ℕ → NodeId → DeliveryNotice

pub record Reliable : Type 0 where
  pub network : Network
  pub pending_messages : Map ReliableMessage
  pub retry_timeout : ℤ
  pub max_retries : ℤ
  -- whether each callback is set
  pub on_message_delivered : Bool
  pub on_message_failed : Bool
  pub sent_messages : ℕ
  pub acknowledged_messages : ℕ
  pub failed_messages : ℕ
  pub delivery_notices : List DeliveryNotice

-- The constructor.
abbrev pub new_reliable : Network → Reliable
new_reliable n = record {
  network = n;
  pending_messages = [];
  retry_timeout = pos 30;
  max_retries = pos 3;
  on_message_delivered = false;
  on_message_failed = false;
  sent_messages = 0;
  acknowledged_messages = 0;
  failed_messages = 0;
  delivery_notices = [];
}

-- A callback is called if it is set.
abbrev pub tell : Bool → DeliveryNotice → Reliable → Reliable
tell set notice r = record r {
  delivery_notices = if set then r.delivery_notices ++ notice ∷ [] else r.delivery_notices;
}

pub mark_message_failed : ℕ → Reliable → Reliable
mark_message_failed id r = elim (lookup id r.pending_messages) [
  | none ↦ r
  | some m ↦ tell r.on_message_failed (message_failed id m.destination_id) (record r {
    failed_messages = r.failed_messages + 1;
    pending_messages = erase id r.pending_messages;
  })
]

pub acknowledge_message : ℕ → NodeId → Reliable → Bool × Reliable
acknowledge_message id sender r = elim (lookup id r.pending_messages) [
  | none ↦ (false, r)
  | some m ↦ (
    true,
    tell r.on_message_delivered (message_delivered id sender) (record r {
      pending_messages = insert id (record m { ack_status = acknowledged }) r.pending_messages;
      acknowledged_messages = r.acknowledged_messages + 1;
    }),
  )
]

unfoldable pub mark_message_acknowledged : ℕ → Reliable → Reliable
unfolding acknowledge_message
mark_message_acknowledged id r = (acknowledge_message id 0 r).1

abbrev pub is_acknowledged : ReliableMessage → Bool
is_acknowledged m = elim m.ack_status [
  | pending ↦ false
  | acknowledged ↦ true
  | timeout ↦ false
  | failed ↦ false
]

unfoldable pub is_message_acknowledged : ℕ → Reliable → Bool
is_message_acknowledged id r = elim (lookup id r.pending_messages) [
  | none ↦ false
  | some m ↦ is_acknowledged m
]

unfoldable pub cleanup_acknowledged_messages : ℤ → TimePoint → Reliable → Reliable
cleanup_acknowledged_messages seconds now r = record r {
  pending_messages =
      erase_if (λ _ m. is_acknowledged m && ltb_ℤ seconds (elapsed_seconds now m.send_time))
        r.pending_messages;
}

abbrev pub set_retry_timeout : ℤ → Reliable → Reliable
set_retry_timeout seconds r = record r { retry_timeout = seconds }

abbrev pub set_max_retries : ℤ → Reliable → Reliable
set_max_retries n r = record r { max_retries = n }

-- A message that waits for the timeout or longer.
abbrev pub is_due : ℤ → TimePoint → ReliableMessage → Bool
is_due seconds now m =
    not (is_acknowledged m) && not (ltb_ℤ (elapsed_seconds now m.last_retry) seconds)

abbrev pub may_retry : ℤ → ReliableMessage → Bool
may_retry max_retries m = ltb_ℤ (pos m.retry_count) max_retries

-- The keys of the entries with a property: the loop that fills toRetry or toFail.
abbrev pub select : (ReliableMessage → Bool) → Map ReliableMessage → List ℕ
select p [] = []
select p ((id, m) ∷ rest) = if p m then id ∷ select p rest else select p rest

unfoldable pub fail_loop : List ℕ → Reliable → Reliable
unfolding mark_message_failed
fail_loop [] r = r
fail_loop (id ∷ ids) r = fail_loop ids (mark_message_failed id r)

abbrev pub retried : TimePoint → ReliableMessage → ReliableMessage
retried now m = record m { retry_count = suc m.retry_count; last_retry = now }

module _ (env : Poco) where
  unfoldable pub send_reliable_message : NodeId → Message → ℕ → TimePoint → Reliable → ℕ × Reliable
  unfolding mark_message_failed
  send_reliable_message target m id now r =
      let entry : ReliableMessage = record {
        message_id = id;
        message = m;
        destination_id = target;
        ack_status = pending;
        retry_count = 0;
        send_time = now;
        last_retry = now;
      } in
      let (sent, n) = send_message_to_peer env target m r.network in
      let s : Reliable = record r {
        pending_messages = insert id entry r.pending_messages;
        network = n;
      } in
      if sent
      then (id, record s { sent_messages = s.sent_messages + 1 })
      else (0, mark_message_failed id s)

  -- One round of the loop over toRetry: what sendWithRetry returns is ignored.
  unfoldable pub retry_one : TimePoint → ℕ → Reliable → Reliable
  retry_one now id r = elim (lookup id r.pending_messages) [
    | none ↦ r
    | some m ↦ record r {
      pending_messages = insert id (retried now m) r.pending_messages;
      network = (send_message_to_peer env m.destination_id m.message r.network).1;
    }
  ]

  unfoldable pub retry_loop : TimePoint → List ℕ → Reliable → Reliable
  unfolding retry_one
  retry_loop now [] r = r
  retry_loop now (id ∷ ids) r = retry_loop now ids (retry_one now id r)

  unfoldable pub retry_pending_messages : ℤ → ℤ → TimePoint → Reliable → Reliable
  unfolding retry_loop fail_loop
  retry_pending_messages seconds max_retries now r =
      let to_retry =
        select (λ m. is_due seconds now m && may_retry max_retries m) r.pending_messages in
      let to_fail =
        select (λ m. is_due seconds now m && not (may_retry max_retries m)) r.pending_messages in
      fail_loop to_fail (retry_loop now to_retry r)
